-- ===== src/Seat/Invariant/Seating.antt =====
-- TAKE_SEAT, LEAVE_SEAT and ASSIGN_SEAT keep the invariant of a room's seats.
use mediasoup_socket_io_audi.Prelude.{
  ℕ, ◌≡◌, ◌≢◌, refl, Option, none, some, Bool, true, false, ◌==◌, leb, if◌then◌else◌, arith, has,
  Bool-cases, inl, inr,
}
use mediasoup_socket_io_audi.Prelude.Int.{ℤ, pos, negsuc}
use mediasoup_socket_io_audi.Prelude.Redis.{
  hget, hset, hdel, update, Distinct, hget-hset, hget-hdel, hset-Distinct, hdel-Distinct,
}
use mediasoup_socket_io_audi.Seat.Types.{Cell, RoomSeats, held_by, occupant, fresh_seat}
use mediasoup_socket_io_audi.Seat.Scan.{purge, picks, hget-purge, purge-Distinct}
use mediasoup_socket_io_audi.Seat.Scripts.{
  held_elsewhere, heal_and_seat, take_seat, leave_seat, assign_seat, take_free, displace,
}
use mediasoup_socket_io_audi.Seat.Invariant.{Inv}

-- The same, where nothing is known of one user's entry in the reverse index.
record InvBut (u : ℕ) (s : RoomSeats) : Type 0 where
  distinct : Distinct s.seats
  single : (i j w : ℕ) → occupant i s ≡ some w → occupant j s ≡ some w → i ≡ j
  unlocked : (i : ℕ) → has i s.locked ≡ true → hget i s.seats ≡ none
  indexed : (w i : ℕ) → w ≢ u → s.user_seat w ≡ some i → occupant i s ≡ some w

forget_index : (u : ℕ) (s : RoomSeats) → Inv s → InvBut u s
forget_index u s v = record {
  distinct = v.distinct;
  single = v.single;
  unlocked = v.unlocked;
  indexed = λ w i ne e. v.indexed w i e;
}

-- Seating a user on a seat that is not locked and shows nobody else keeps the invariant.
heal_and_seat-Inv :
    (s : RoomSeats) (i u : ℕ)
    → InvBut u s
    → has i s.locked ≡ false
    → hget i s.seats ≡ none
    → Inv (heal_and_seat s i u).0
unfolding heal_and_seat
heal_and_seat-Inv s i u v open_ free = record {
  distinct = hset-Distinct i _ _ (purge-Distinct (held_elsewhere u i) s.seats s.seats v.distinct);
  single = λ j k w e f. ground (arith, at j, at k, v.single j k w);
  unlocked = λ j e. ground (arith, at j, v.unlocked j);
  indexed = λ w j e. ground (arith, at j, λ (ne : w ≢ u). v.indexed w j ne);
}
  where
    at :
        (j : ℕ)
        → hget j (hset i (some (fresh_seat u)) (purge (held_elsewhere u i) s.seats s.seats).0) ≡ (
            if i == j
            then some (some (fresh_seat u))
            else (if picks (held_elsewhere u i) j (hget j s.seats) then none else hget j s.seats))
    at j = ground (
      arith,
      hget-hset j i (some (fresh_seat u)) (purge (held_elsewhere u i) s.seats s.seats).0,
      hget-purge (held_elsewhere u i) j s.seats v.distinct,
    )

take_free-Inv :
    (s : RoomSeats) (i u : ℕ) (c : Option Cell)
    → Inv s
    → has i s.locked ≡ false
    → hget i s.seats ≡ c
    → Inv (take_free s i u c).0
unfolding take_free
take_free-Inv s i u none v open_ e = heal_and_seat-Inv s i u (forget_index u s v) open_ e
take_free-Inv s i u (some c) v open_ e = v

pub take_seat-Inv :
    (s : RoomSeats) (i : ℤ) (u seat_count : ℕ) → Inv s → Inv (take_seat s i u seat_count).0
unfolding take_seat
take_seat-Inv s (negsuc n) u count v = v
take_seat-Inv s (pos i) u count v = grind (arith, take_free-Inv s i u (hget i s.seats))

pub leave_seat-Inv : (s : RoomSeats) (u : ℕ) → Inv s → Inv (leave_seat s u).0
unfolding leave_seat
leave_seat-Inv s u v = record {
  distinct = purge-Distinct mine s.seats s.seats v.distinct;
  single = λ j k w e f. ground (arith, at j, at k, v.single j k w);
  unlocked = λ j e. ground (arith, at j, v.unlocked j);
  indexed = λ w j e. ground (arith, at j, v.indexed w j);
}
  where
    mine : ℕ → Cell → Bool
    mine idx c = held_by u c

    at :
        (j : ℕ)
        → hget j (purge mine s.seats s.seats).0
          ≡ (if picks mine j (hget j s.seats) then none else hget j s.seats)
    at j = hget-purge mine j s.seats v.distinct

-- Deleting a seat keeps the invariant, if no kept entry of the index names its occupant.
hdel-InvBut :
    (s : RoomSeats) (i u : ℕ) (f : ℕ → Option ℕ)
    → Inv s
    → ((w j : ℕ) → w ≢ u → f w ≡ some j → (s.user_seat w ≡ some j) × (occupant i s ≢ some w))
    → InvBut u (record s { seats = hdel i s.seats; user_seat = f })
hdel-InvBut s i u f v keeps = record {
  distinct = hdel-Distinct i s.seats v.distinct;
  single =
      λ j k w e g. ground (arith, hget-hdel j i s.seats, hget-hdel k i s.seats, v.single j k w);
  unlocked = λ j e. ground (arith, hget-hdel j i s.seats, v.unlocked j);
  indexed = λ w j ne e.
      ground (arith, hget-hdel j i s.seats, v.indexed w j (keeps w j ne e).0, (keeps w j ne e).1);
}

displace-InvBut :
    (s : RoomSeats) (i u : ℕ) (c : Option Cell)
    → Inv s
    → hget i s.seats ≡ c
    → InvBut u (displace s i u c)
      × (hget i (displace s i u c).seats ≡ none)
      × ((displace s i u c).locked ≡ s.locked)
unfolding displace
displace-InvBut s i u none v e = (forget_index u s v, e, refl)
displace-InvBut s i u (some none) v e = (
  hdel-InvBut s i u s.user_seat v (λ w j ne f. (f, λ g. ground arith)),
  ground (arith, hget-hdel i i s.seats),
  refl,
)
displace-InvBut s i u (some (some d)) v e = (
  hdel-InvBut s i u (if d.user_id == u then s.user_seat else update s.user_seat d.user_id none) v
      (λ w j ne f. (ground arith, λ g. ground arith)),
  ground (arith, hget-hdel i i s.seats),
  refl,
)

pub assign_seat-Inv :
    (s : RoomSeats) (i : ℤ) (u seat_count : ℕ) → Inv s → Inv (assign_seat s i u seat_count).0
unfolding assign_seat
assign_seat-Inv s (negsuc n) u count v = v
assign_seat-Inv s (pos i) u count v = elim (Bool-cases (leb count i)) [
  | inl out ↦ rw (out, assign_seat) v
  | inr within ↦ elim (Bool-cases (has i s.locked)) [
    | inl shut ↦ rw (within, shut, assign_seat) v
    | inr open_ ↦
        let (w, free, same) = displace-InvBut s i u (hget i s.seats) v refl in
        rw (within, open_, assign_seat)
          (heal_and_seat-Inv (displace s i u (hget i s.seats)) i u w (rw same open_) free)
  ]
]
