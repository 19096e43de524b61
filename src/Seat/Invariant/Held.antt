-- ===== src/Seat/Invariant/Held.antt =====
-- The scripts that hold a seat across a reconnect, and the eviction, keep the invariant.
use mediasoup_socket_io_audi.Seat.Invariant.Locking.{rewrite_cell-Inv}
use mediasoup_socket_io_audi.Seat.Retention.{
  mark, reserve_scan, reserve_seat, in_grace, past_grace, reactivate, reclaim_scan, reclaim_seat,
  sweep_expired, shrink_evict,
}
use mediasoup_socket_io_audi.Prelude.{
  ℕ, ◌≡◌, refl, [], ◌∷◌, Option, none, some, Bool, true, false, ◌==◌, leb, if◌then◌else◌, ◌&&◌,
  arith, Bool-cases, inl, inr, ◌⊎◌,
}
use mediasoup_socket_io_audi.Prelude.Redis.{Hash, hget, hset, Distinct, hget-hset, hset-Distinct}
use mediasoup_socket_io_audi.Seat.Types.{SeatAssignment, Cell, RoomSeats, occupant, user_of}
use mediasoup_socket_io_audi.Seat.Scan.{
  evict, picks, decoded, hget-evict, user_seat-evict, locked-evict, evict-Distinct,
}
use mediasoup_socket_io_audi.Seat.Invariant.{Inv}

evict-Inv : (p : ℕ → SeatAssignment → Bool) (s : RoomSeats) → Inv s → Inv (evict p s.seats s).0
evict-Inv p s v = record {
  distinct = evict-Distinct p s.seats s v.distinct;
  single = λ j k w e f. ground (arith, at j, at k, v.single j k w);
  unlocked = λ j e. ground (arith, at j, locked-evict p s.seats s, v.unlocked j);
  indexed = λ w j e.
      let (before, kept) = user_seat-evict p w j s e in
      evict_kept w j (hget j s.seats) refl (v.indexed w j before) (kept j);
}
  where
    at :
        (j : ℕ)
        → hget j (evict p s.seats s).0.seats
          ≡ (if picks (decoded p) j (hget j s.seats) then none else hget j s.seats)
    at j = hget-evict p j s v.distinct

    evict_kept :
        (w j : ℕ) (c : Option Cell)
        → hget j s.seats ≡ c
        → user_of (hget j s.seats) ≡ some w
        → ((d : SeatAssignment) → hget j s.seats ≡ some (some d) → d.user_id ≡ w → p j d ≡ false)
        → occupant j (evict p s.seats s).0 ≡ some w
    evict_kept w j none e o k = ground arith
    evict_kept w j (some none) e o k = ground arith
    evict_kept w j (some (some d)) e o k = ground (arith, at j, k d e)

pub sweep_expired-Inv : (s : RoomSeats) (now grace : ℕ) → Inv s → Inv (sweep_expired s now grace).0
unfolding sweep_expired
sweep_expired-Inv s now grace v = evict-Inv (λ idx d. past_grace now grace d.disconnected_at) s v

pub shrink_evict-Inv : (s : RoomSeats) (count : ℕ) → Inv s → Inv (shrink_evict s count).0
unfolding shrink_evict
shrink_evict-Inv s count v = evict-Inv (λ idx d. leb count idx) s v

-- The reclaim scan changes nothing, or restores the first seat of the user that is in grace.
pub reclaim_cases :
    (s : RoomSeats) (u now grace : ℕ) (all : Hash Cell)
    → Distinct all
    → ((reclaim_scan u now grace all s ≡ (s, none))
        × ((i : ℕ) (d : SeatAssignment)
            → hget i all ≡ some (some d)
            → ((d.user_id == u) && in_grace now grace d.disconnected_at) ≡ false))
      ⊎ ((i : ℕ) × (d : SeatAssignment) × (hget i all ≡ some (some d))
          × (d.user_id ≡ u)
          × (in_grace now grace d.disconnected_at ≡ true)
          × (reclaim_scan u now grace all s ≡ (reactivate s u i d, some (i, d.muted))))
unfolding reclaim_scan hget
reclaim_cases s u now grace [] x = inl (refl, λ i d e. cc)
reclaim_cases s u now grace ((k, none) ∷ all) x = elim (reclaim_cases s u now grace all x.1) [
  | inl (same, no_) ↦ inl (same, λ i d e. ground (arith, no_ i d))
  | inr (i, d, at, mine, live, found) ↦ inr (i, d, ground (arith, at), mine, live, found)
]
reclaim_cases s u now grace ((k, some c) ∷ all) x =
    elim (Bool-cases ((c.user_id == u) && in_grace now grace c.disconnected_at)) [
      | inl hit ↦ inr (k, c, ground arith, ground arith, ground arith, rw (hit, reclaim_scan) refl)
      | inr miss ↦ elim (reclaim_cases s u now grace all x.1) [
        | inl (same, no_) ↦ inl (rw (miss, reclaim_scan) same, λ i d e. ground (arith, no_ i d))
        | inr (i, d, at, mine, live, found) ↦
            inr (i, d, ground arith, mine, live, rw (miss, reclaim_scan) found)
      ]
    ]

reactivate-Inv :
    (s : RoomSeats) (u i : ℕ) (d : SeatAssignment)
    → hget i s.seats ≡ some (some d)
    → d.user_id ≡ u
    → Inv s
    → Inv (reactivate s u i d)
reactivate-Inv s u i d e mine v =
    let w = rewrite_cell-Inv s i d (record d { disconnected_at = none }) e refl v in
    record {
      distinct = w.distinct;
      single = w.single;
      unlocked = w.unlocked;
      indexed = λ x j f. ground (
        arith,
        hget-hset j i (some (record d { disconnected_at = none })) s.seats,
        w.indexed x j,
      );
    }

pub reclaim_seat-Inv :
    (s : RoomSeats) (u now grace : ℕ) → Inv s → Inv (reclaim_seat s u now grace).0
unfolding reclaim_seat
reclaim_seat-Inv s u now grace v = elim (reclaim_cases s u now grace s.seats v.distinct) [
  | inl (same, no_) ↦ rw same v
  | inr (i, d, at, mine, live, found) ↦ rw found (reactivate-Inv s u i d at mine v)
]

-- What the reserve scan makes of a field: `c` is the snapshot's, `x` the hash's.
abbrev pub stamped : ℕ → ℕ → Option Cell → Option Cell → Option Cell
stamped u now none x = x
stamped u now (some none) x = x
stamped u now (some (some d)) x = if d.user_id == u then some (some (mark now d)) else x

pub hget-reserve_scan :
    (u now j : ℕ) (l h : Hash Cell)
    → Distinct l
    → hget j (reserve_scan u now l h).0 ≡ stamped u now (hget j l) (hget j h)
unfolding reserve_scan hget
hget-reserve_scan u now j [] h x = refl
hget-reserve_scan u now j ((k, none) ∷ l) h x = ground (arith, hget-reserve_scan u now j l h x.1)
hget-reserve_scan u now j ((k, some d) ∷ l) h x = ground (
  arith,
  hget-reserve_scan u now j l (if d.user_id == u then hset k (some (mark now d)) h else h) x.1,
  hget-hset j k (some (mark now d)) h,
)

reserve_scan-Distinct :
    (u now : ℕ) (l h : Hash Cell) → Distinct h → Distinct (reserve_scan u now l h).0
unfolding reserve_scan
reserve_scan-Distinct u now [] h x = x
reserve_scan-Distinct u now ((k, none) ∷ l) h x = reserve_scan-Distinct u now l h x
reserve_scan-Distinct u now ((k, some d) ∷ l) h x =
    reserve_scan-Distinct u now l (if d.user_id == u then hset k (some (mark now d)) h else h)
      (ground (arith, hset-Distinct k (some (mark now d)) h x))

pub reserve_seat-Inv : (s : RoomSeats) (u now : ℕ) → Inv s → Inv (reserve_seat s u now).0
unfolding reserve_seat
reserve_seat-Inv s u now v = record {
  distinct = reserve_scan-Distinct u now s.seats s.seats v.distinct;
  single = λ j k w e f. ground (arith, at j, at k, v.single j k w);
  unlocked = λ j e. ground (arith, at j, v.unlocked j);
  indexed = λ w j e. ground (arith, at j, v.indexed w j);
}
  where
    at :
        (j : ℕ)
        → hget j (reserve_scan u now s.seats s.seats).0
          ≡ stamped u now (hget j s.seats) (hget j s.seats)
    at j = hget-reserve_scan u now j s.seats s.seats v.distinct
