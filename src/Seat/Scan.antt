-- ===== src/Seat/Scan.antt =====
-- The bounded HGETALL scans of src/domains/seat/seat.lua-scripts.ts: each walks a snapshot `all` of
-- the seats hash, while it writes the hash itself.
use mediasoup_socket_io_audi.Prelude.{
  ℕ, ◌≡◌, refl, List, [], ◌∷◌, Option, none, some, Bool, false, ◌==◌, if◌then◌else◌, has, ◌∙◌, true,
  arith, ◌||◌, ◌&&◌,
}
use mediasoup_socket_io_audi.Prelude.Redis.{
  Hash, hget, hdel, Distinct, update, hget-hdel, hdel-Distinct,
}
use mediasoup_socket_io_audi.Seat.Types.{SeatAssignment, Cell, RoomSeats}

-- HDEL every seat that the test picks; the second part lists the vacated seats.
unfoldable pub purge : (ℕ → Cell → Bool) → Hash Cell → Hash Cell → Hash Cell × List ℕ
purge p [] h = (h, [])
purge p ((idx, c) ∷ all) h =
    let (h', cleared) = purge p all (if p idx c then hdel idx h else h) in
    (h', if p idx c then idx ∷ cleared else cleared)

abbrev pub evict_seat : RoomSeats → ℕ → SeatAssignment → RoomSeats
evict_seat s idx d = record s {
  seats = hdel idx s.seats;
  user_seat = update s.user_seat d.user_id none;
}

-- HDEL every decodable seat that the test picks and DEL its user's reverse index.
unfoldable pub evict :
    (ℕ → SeatAssignment → Bool) → Hash Cell → RoomSeats → RoomSeats × List (ℕ × ℕ)
evict p [] s = (s, [])
evict p ((idx, none) ∷ all) s = evict p all s
evict p ((idx, some d) ∷ all) s =
    let (s', cleared) = evict p all (if p idx d then evict_seat s idx d else s) in
    (s', if p idx d then (idx, d.user_id) ∷ cleared else cleared)

abbrev pub picks : (ℕ → Cell → Bool) → ℕ → Option Cell → Bool
picks p j none = false
picks p j (some c) = p j c

marked : (ℕ → Cell → Bool) → ℕ → Hash Cell → Bool
marked p j [] = false
marked p j ((k, c) ∷ l) = ((k == j) && p k c) || marked p j l

marked_absent :
    (p : ℕ → Cell → Bool) (j : ℕ) (l : Hash Cell) → hget j l ≡ none → marked p j l ≡ false
unfolding marked hget
marked_absent p j [] e = refl
marked_absent p j ((k, c) ∷ l) e = ground (arith, marked_absent p j l)

marked-Distinct :
    (p : ℕ → Cell → Bool) (j : ℕ) (l : Hash Cell) → Distinct l → marked p j l ≡ picks p j (hget j l)
unfolding marked hget
marked-Distinct p j [] d = refl
marked-Distinct p j ((k, c) ∷ l) d = ground (arith, marked-Distinct p j l d.1, marked_absent p j l)

hget-purge-marked :
    (p : ℕ → Cell → Bool) (j : ℕ) (l h : Hash Cell)
    → hget j (purge p l h).0 ≡ (if marked p j l then none else hget j h)
unfolding purge marked
hget-purge-marked p j [] h = refl
hget-purge-marked p j ((k, c) ∷ l) h =
    ground (arith, hget-purge-marked p j l (if p k c then hdel k h else h), hget-hdel j k h)

-- Scanning a hash with distinct fields removes the picked fields and no other.
pub hget-purge :
    (p : ℕ → Cell → Bool) (j : ℕ) (h : Hash Cell)
    → Distinct h
    → hget j (purge p h h).0 ≡ (if picks p j (hget j h) then none else hget j h)
hget-purge p j h d = ground (arith, hget-purge-marked p j h h, marked-Distinct p j h d)

pub purge-Distinct : (p : ℕ → Cell → Bool) (l h : Hash Cell) → Distinct h → Distinct (purge p l h).0
unfolding purge
purge-Distinct p [] h d = d
purge-Distinct p ((k, c) ∷ l) h d =
    purge-Distinct p l (if p k c then hdel k h else h) (ground (arith, hdel-Distinct k h d))

has-purge-marked :
    (p : ℕ → Cell → Bool) (j : ℕ) (l h : Hash Cell) → has j (purge p l h).1 ≡ marked p j l
unfolding purge marked
has-purge-marked p j [] h = refl
has-purge-marked p j ((k, c) ∷ l) h =
    ground (arith, has-purge-marked p j l (if p k c then hdel k h else h))

-- The list of vacated seats names exactly the picked fields.
pub has-purge :
    (p : ℕ → Cell → Bool) (j : ℕ) (h : Hash Cell)
    → Distinct h
    → has j (purge p h h).1 ≡ picks p j (hget j h)
has-purge p j h d = has-purge-marked p j h h ∙ marked-Distinct p j h d

-- A test on decodable seats, as a test on cells.
abbrev pub decoded : (ℕ → SeatAssignment → Bool) → ℕ → Cell → Bool
decoded p k none = false
decoded p k (some d) = p k d

-- Some picked seat of the snapshot is the user's.
owner_marked : (ℕ → SeatAssignment → Bool) → ℕ → Hash Cell → Bool
owner_marked p u [] = false
owner_marked p u ((k, none) ∷ l) = owner_marked p u l
owner_marked p u ((k, some d) ∷ l) = (p k d && (d.user_id == u)) || owner_marked p u l

hget-evict-marked :
    (p : ℕ → SeatAssignment → Bool) (j : ℕ) (l : Hash Cell) (s : RoomSeats)
    → hget j (evict p l s).0.seats ≡ (if marked (decoded p) j l then none else hget j s.seats)
unfolding evict marked
hget-evict-marked p j [] s = refl
hget-evict-marked p j ((k, none) ∷ l) s = ground (arith, hget-evict-marked p j l s)
hget-evict-marked p j ((k, some d) ∷ l) s =
    ground (
      arith,
      hget-evict-marked p j l (if p k d then evict_seat s k d else s),
      hget-hdel j k s.seats,
    )

-- Evicting over the whole hash removes the picked seats and no other.
pub hget-evict :
    (p : ℕ → SeatAssignment → Bool) (j : ℕ) (s : RoomSeats)
    → Distinct s.seats
    → hget j (evict p s.seats s).0.seats
      ≡ (if picks (decoded p) j (hget j s.seats) then none else hget j s.seats)
hget-evict p j s d =
    ground (arith, hget-evict-marked p j s.seats s, marked-Distinct (decoded p) j s.seats d)

user_seat-evict-marked :
    (p : ℕ → SeatAssignment → Bool) (u : ℕ) (l : Hash Cell) (s : RoomSeats)
    → (evict p l s).0.user_seat u ≡ (if owner_marked p u l then none else s.user_seat u)
unfolding evict owner_marked
user_seat-evict-marked p u [] s = refl
user_seat-evict-marked p u ((k, none) ∷ l) s = ground (arith, user_seat-evict-marked p u l s)
user_seat-evict-marked p u ((k, some d) ∷ l) s =
    ground (arith, user_seat-evict-marked p u l (if p k d then evict_seat s k d else s))

owner_marked_of_hget :
    (p : ℕ → SeatAssignment → Bool) (j : ℕ) (l : Hash Cell) (d : SeatAssignment)
    → hget j l ≡ some (some d)
    → p j d ≡ true
    → owner_marked p d.user_id l ≡ true
unfolding owner_marked hget
owner_marked_of_hget p j [] d e h = cc
owner_marked_of_hget p j ((k, none) ∷ l) d e h = ground (arith, owner_marked_of_hget p j l d)
owner_marked_of_hget p j ((k, some c) ∷ l) d e h = ground (arith, owner_marked_of_hget p j l d)

-- An index entry that an eviction leaves stood before, and its seat was not picked.
pub user_seat-evict :
    (p : ℕ → SeatAssignment → Bool) (u i : ℕ) (s : RoomSeats)
    → (evict p s.seats s).0.user_seat u ≡ some i
    → (s.user_seat u ≡ some i)
      × ((j : ℕ) (d : SeatAssignment)
          → hget j s.seats ≡ some (some d)
          → d.user_id ≡ u
          → p j d ≡ false)
user_seat-evict p u i s e = (
  ground (arith, user_seat-evict-marked p u s.seats s),
  λ j d h k.
      ground (arith, user_seat-evict-marked p u s.seats s, owner_marked_of_hget p j s.seats d h),
)

pub locked-evict :
    (p : ℕ → SeatAssignment → Bool) (l : Hash Cell) (s : RoomSeats)
    → (evict p l s).0.locked ≡ s.locked
unfolding evict
locked-evict p [] s = refl
locked-evict p ((k, none) ∷ l) s = locked-evict p l s
locked-evict p ((k, some d) ∷ l) s =
    ground (arith, locked-evict p l (if p k d then evict_seat s k d else s))

pub evict-Distinct :
    (p : ℕ → SeatAssignment → Bool) (l : Hash Cell) (s : RoomSeats)
    → Distinct s.seats
    → Distinct (evict p l s).0.seats
unfolding evict
evict-Distinct p [] s d = d
evict-Distinct p ((k, none) ∷ l) s d = evict-Distinct p l s d
evict-Distinct p ((k, some c) ∷ l) s d =
    evict-Distinct p l (if p k c then evict_seat s k c else s)
      (ground (arith, hdel-Distinct k s.seats d))
