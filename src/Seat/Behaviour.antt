-- ===== src/Seat/Behaviour.antt =====
-- What TAKE_SEAT, LEAVE_SEAT and ASSIGN_SEAT do on each branch.
use mediasoup_socket_io_audi.Prelude.{
  ℕ, ◌≡◌, ◌≢◌, ◌↔◌, ◌<◌, ◌≤◌, refl, List, [], ◌∷◌, Option, none, some, Bool, true, false, ◌==◌,
  if◌then◌else◌, arith, has, ◌∙◌, ◌⊎◌,
}
use mediasoup_socket_io_audi.Prelude.Int.{pos}
use mediasoup_socket_io_audi.Prelude.Redis.{hget, Distinct, hget-hset, hget-hdel, hdel-Distinct}
use mediasoup_socket_io_audi.Seat.Types.{
  Cell, RoomSeats, held_by, occupant, user_of, fresh_seat, ok, err, ScriptError, seat_invalid,
  seat_locked, seat_taken, not_seated,
}
use mediasoup_socket_io_audi.Seat.Scan.{purge, picks, hget-purge, has-purge}
use mediasoup_socket_io_audi.Seat.Scripts.{
  held_elsewhere, heal_and_seat, take_seat, leave_seat, assign_seat, displace, left,
}
use mediasoup_socket_io_audi.Seat.Invariant.{Inv}
use mediasoup_socket_io_audi.Seat.Invariant.Seating.{take_seat-Inv}

-- The seats after `u` has been seated on `i`: `u` is on `i` and nowhere else, and every other seat
-- that did not show `u` is as it was.
abbrev pub seated : ℕ → ℕ → ℕ → Option Cell → Option Cell
seated i u j c =
    if i == j
    then some (some (fresh_seat u))
    else (if picks (held_elsewhere u i) j c then none else c)

hget-heal_and_seat :
    (s : RoomSeats) (i u j : ℕ)
    → Distinct s.seats
    → hget j (heal_and_seat s i u).0.seats ≡ seated i u j (hget j s.seats)
unfolding heal_and_seat
hget-heal_and_seat s i u j d = ground (
  arith,
  hget-hset j i (some (fresh_seat u)) (purge (held_elsewhere u i) s.seats s.seats).0,
  hget-purge (held_elsewhere u i) j s.seats d,
)

-- The condition of TAKE_SEAT: in range, not locked and not taken.
abbrev pub Takeable : RoomSeats → ℕ → ℕ → Type 0
Takeable s i count = (i < count) × (has i s.locked ≡ false) × (hget i s.seats ≡ none)

take_seat-eq :
    (s : RoomSeats) (i u count : ℕ)
    → Takeable s i count
    → take_seat s (pos i) u count ≡ heal_and_seat s i u
unfolding take_seat
take_seat-eq s i u count (lt, open_, free) = ground arith

-- Taking a free, unlocked seat in range seats the user there, vacates exactly the other seats that
-- showed the user, lists just these in its answer, leaves every other seat and all locks as they
-- were, and points the user's reverse index, and no other, at the seat.
pub take_seat_lem :
    (s : RoomSeats) (i u count : ℕ)
    → Distinct s.seats
    → Takeable s i count
    → let t = (take_seat s (pos i) u count).0 in
      ((j : ℕ) → hget j t.seats ≡ seated i u j (hget j s.seats))
      × ((w : ℕ) → t.user_seat w ≡ (if u == w then some i else s.user_seat w))
      × (t.locked ≡ s.locked)
      × ((cleared : List ℕ) × ((take_seat s (pos i) u count).1 ≡ ok (i, cleared))
          × ((j : ℕ) → has j cleared ≡ picks (held_elsewhere u i) j (hget j s.seats)))
take_seat_lem s i u count d ready = rw (take_seat-eq s i u count ready) (
  (λ j. hget-heal_and_seat s i u j d),
  (λ w. unfold heal_and_seat in refl),
  unfold heal_and_seat in refl,
  (
    (purge (held_elsewhere u i) s.seats s.seats).1,
    unfold heal_and_seat in refl,
    λ j. has-purge (held_elsewhere u i) j s.seats d,
  ),
)

-- A refused take leaves the room as it was, and the error names the first check that failed: the
-- range, the lock, the occupant.
pub take_seat_refused :
    (s : RoomSeats) (i u count : ℕ) (e : ScriptError)
    → (take_seat s (pos i) u count).1 ≡ err e
    → ((take_seat s (pos i) u count).0 ≡ s)
      × (((e ≡ seat_invalid) × (count ≤ i))
          ⊎ ((e ≡ seat_locked) × (i < count) × (has i s.locked ≡ true))
          ⊎ ((e ≡ seat_taken) × (i < count) × (has i s.locked ≡ false) × (hget i s.seats ≢ none)))
unfolding take_seat
take_seat_refused s i u count e h = ground arith

abbrev pub mine : ℕ → ℕ → Cell → Bool
mine u idx c = held_by u c

left_nil : (l : List ℕ) → ((j : ℕ) → has j l ≡ false) → left l ≡ err not_seated
unfolding left
left_nil [] h = refl
left_nil (x ∷ l) h = ground (arith, h x)

nil_of_left : (l : List ℕ) (j : ℕ) → left l ≡ err not_seated → has j l ≡ false
unfolding left
nil_of_left [] j e = refl
nil_of_left (x ∷ l) j e = cc

-- Leaving vacates exactly the seats that show the user and deletes the user's reverse index; the
-- answer is NOT_SEATED exactly when there was no such seat.
pub leave_seat_lem :
    (s : RoomSeats) (u : ℕ)
    → Distinct s.seats
    → let t = (leave_seat s u).0 in
      ((j : ℕ)
        → hget j t.seats ≡ (if picks (mine u) j (hget j s.seats) then none else hget j s.seats))
      × ((w : ℕ) → t.user_seat w ≡ (if u == w then none else s.user_seat w))
      × (t.locked ≡ s.locked)
      × (((leave_seat s u).1 ≡ err not_seated) ↔ ((j : ℕ) → occupant j s ≢ some u))
unfolding leave_seat
leave_seat_lem s u d = (
  (λ j. hget-purge (mine u) j s.seats d),
  (λ w. refl),
  refl,
  (
    (λ e j h. nobody j h e),
    λ h. left_nil _ (λ j. rw (has-purge (mine u) j s.seats d) (unseen j (hget j s.seats) (h j))),
  ),
)
  where
    nobody :
        (j : ℕ) → occupant j s ≡ some u → left (purge (mine u) s.seats s.seats).1 ≢ err not_seated
    nobody j h e =
        ground (
          arith,
          has-purge (mine u) j s.seats d,
          nil_of_left (purge (mine u) s.seats s.seats).1 j e,
        )

    unseen : (j : ℕ) (c : Option Cell) → user_of c ≢ some u → picks (mine u) j c ≡ false
    unseen j none h = refl
    unseen j (some none) h = refl
    unseen j (some (some x)) h = ground arith

-- Leaving straight after a take leaves the seats as leaving without it does.
pub leave-take :
    (s : RoomSeats) (i u count j : ℕ)
    → Inv s
    → Takeable s i count
    → hget j (leave_seat (take_seat s (pos i) u count).0 u).0.seats
      ≡ hget j (leave_seat s u).0.seats
leave-take s i u count j v ready =
    let after_Inv = take_seat-Inv s (pos i) u count v in
    same_seats (hget j s.seats) (hget j (take_seat s (pos i) u count).0.seats) refl ready.2
      ((take_seat_lem s i u count v.distinct ready).0 j)
      ((leave_seat_lem (take_seat s (pos i) u count).0 u after_Inv.distinct).0 j)
      ((leave_seat_lem s u v.distinct).0 j)
  where
    same_seats :
        (c c' : Option Cell)
        → hget j s.seats ≡ c
        → hget i s.seats ≡ none
        → c' ≡ seated i u j c
        → {x y : Option Cell} → x ≡ (if picks (mine u) j c' then none else c')
        → y ≡ (if picks (mine u) j c then none else c)
        → x ≡ y
    same_seats c c' e free e' ex ey = ground arith

displace_lem :
    (s : RoomSeats) (i u j w : ℕ) (c : Option Cell)
    → hget i s.seats ≡ c
    → (hget j (displace s i u c).seats ≡ (if i == j then none else hget j s.seats))
      × ((displace s i u c).locked ≡ s.locked)
      × (u ≢ w
          → (displace s i u c).user_seat w ≡ (if picks (mine w) i c then none else s.user_seat w))
unfolding displace
displace_lem s i u j w none e = ground arith
displace_lem s i u j w (some none) e = ground (arith, hget-hdel j i s.seats)
displace_lem s i u j w (some (some d)) e = ground (arith, hget-hdel j i s.seats)

displace-Distinct :
    (s : RoomSeats) (i u : ℕ) (c : Option Cell)
    → Distinct s.seats
    → Distinct (displace s i u c).seats
unfolding displace
displace-Distinct s i u none d = d
displace-Distinct s i u (some none) d = hdel-Distinct i s.seats d
displace-Distinct s i u (some (some x)) d = hdel-Distinct i s.seats d

assign_seat-eq :
    (s : RoomSeats) (i u count : ℕ)
    → i < count
    → has i s.locked ≡ false
    → assign_seat s (pos i) u count ≡ heal_and_seat (displace s i u (hget i s.seats)) i u
unfolding assign_seat
assign_seat-eq s i u count lt open_ = ground arith

-- An assignment in range to a seat that is not locked never fails: it seats the user there,
-- vacates the user's other seats and no other, and deletes the reverse index of the user who was
-- displaced, if that is somebody else.
pub assign_seat_lem :
    (s : RoomSeats) (i u count : ℕ)
    → Inv s
    → i < count
    → has i s.locked ≡ false
    → let t = (assign_seat s (pos i) u count).0 in
      ((j : ℕ) → hget j t.seats ≡ seated i u j (hget j s.seats))
      × ((w : ℕ)
          → t.user_seat w ≡ (
              if u == w
              then some i
              else (if picks (mine w) i (hget i s.seats) then none else s.user_seat w)))
      × (t.locked ≡ s.locked)
      × ((cleared : List ℕ) × ((assign_seat s (pos i) u count).1 ≡ ok (i, cleared))
          × ((j : ℕ) → has j cleared ≡ picks (held_elsewhere u i) j (hget j s.seats)))
assign_seat_lem s i u count v lt open_ = rw (assign_seat-eq s i u count lt open_) (
  (λ j.
      ground (
        arith,
        hget-heal_and_seat (moved) i u j dist,
        displace_lem s i u j 0 (hget i s.seats) refl,
      )),
  (λ w. unfold heal_and_seat in ground (arith, (displace_lem s i u 0 w (hget i s.seats) refl).2)),
  unfold heal_and_seat in (displace_lem s i u 0 0 (hget i s.seats) refl).1,
  (
    (purge (held_elsewhere u i) moved.seats moved.seats).1,
    unfold heal_and_seat in refl,
    λ j.
        has-purge (held_elsewhere u i) j moved.seats dist
        ∙ ground (arith, (displace_lem s i u j 0 (hget i s.seats) refl).0),
  ),
)
  where
    moved : RoomSeats
    moved = displace s i u (hget i s.seats)

    dist : Distinct moved.seats
    dist = displace-Distinct s i u (hget i s.seats) v.distinct
