-- ===== src/Seat/Locks.antt =====
-- What SET_MUTE, LOCK_SEAT and UNLOCK_SEAT do, alone and after one another.
use mediasoup_socket_io_audi.Prelude.{
  ℕ, ◌≡◌, ◌≢◌, refl, ◌∷◌, Option, none, some, Bool, true, false, ◌==◌, leb, if◌then◌else◌, arith,
  has, Bool-cases, inl, inr,
}
use mediasoup_socket_io_audi.Prelude.Int.{pos}
use mediasoup_socket_io_audi.Prelude.Redis.{
  hget, hget-hset, hget-hdel, has-sadd, has-srem, sadd, srem,
}
use mediasoup_socket_io_audi.Seat.Types.{
  SeatAssignment, Cell, RoomSeats, occupant, user_of, ok, err, raised, seat_invalid, seat_locked,
}
use mediasoup_socket_io_audi.Seat.Scripts.{
  take_seat, assign_seat, set_mute, lock_seat, unlock_seat, mute_cell, lock_cell,
}

lock_cell_lem :
    (s : RoomSeats) (i : ℕ) (c : Option Cell) (kicked : Option ℕ)
    → hget i s.seats ≡ c
    → (lock_cell s i c).1 ≡ ok kicked
    → (kicked ≡ user_of c)
      × (hget i (lock_cell s i c).0.seats ≡ none)
      × ((w : ℕ) → kicked ≡ some w → (lock_cell s i c).0.user_seat w ≡ none)
      × (has i (lock_cell s i c).0.locked ≡ true)
unfolding lock_cell
lock_cell_lem s i none kicked e h =
    (ground arith, e, λ w k. ground arith, ground (arith, has-sadd i i s.locked))
lock_cell_lem s i (some none) kicked e h = cc
lock_cell_lem s i (some (some d)) kicked e h = (
  ground arith,
  ground (arith, hget-hdel i i s.seats),
  λ w k. ground arith,
  ground (arith, has-sadd i i s.locked),
)

take_seat-locked :
    (t : RoomSeats) (i u count : ℕ)
    → has i t.locked ≡ true
    → take_seat t (pos i) u count ≡ (t, err (if leb count i then seat_invalid else seat_locked))
unfolding take_seat
take_seat-locked t i u count h = ground arith

assign_seat-locked :
    (t : RoomSeats) (i u count : ℕ)
    → has i t.locked ≡ true
    → assign_seat t (pos i) u count ≡ (t, err (if leb count i then seat_invalid else seat_locked))
unfolding assign_seat
assign_seat-locked t i u count h = ground arith

-- A lock that succeeds empties the seat, answers whom it removed and deletes that user's reverse
-- index, and from then on TAKE_SEAT and ASSIGN_SEAT refuse the seat with SEAT_LOCKED, or
-- SEAT_INVALID if it is out of range, to everybody.
pub lock_seat_excludes :
    (s : RoomSeats) (i u count : ℕ) (kicked : Option ℕ)
    → (lock_seat s i).1 ≡ ok kicked
    → let t = (lock_seat s i).0 in
      (kicked ≡ occupant i s)
      × (hget i t.seats ≡ none)
      × ((w : ℕ) → kicked ≡ some w → t.user_seat w ≡ none)
      × (take_seat t (pos i) u count ≡ (t, err (if leb count i then seat_invalid else seat_locked)))
      × (assign_seat t (pos i) u count
          ≡ (t, err (if leb count i then seat_invalid else seat_locked)))
unfolding lock_seat
lock_seat_excludes s i u count kicked h = elim (Bool-cases (has i s.locked)) [
  | inl shut ↦ absurd (ground arith)
  | inr open_ ↦
      let (who, gone, index, shut) =
        lock_cell_lem s i (hget i s.seats) kicked refl (ground arith) in
      rw (open_, lock_seat)
        (
          who,
          gone,
          index,
          take_seat-locked (lock_cell s i (hget i s.seats)).0 i u count shut,
          assign_seat-locked (lock_cell s i (hget i s.seats)).0 i u count shut,
        )
]

lock_seat-empty :
    (s : RoomSeats) (i : ℕ)
    → has i s.locked ≡ false
    → hget i s.seats ≡ none
    → lock_seat s i ≡ (record s { locked = i ∷ s.locked }, ok none)
unfolding lock_seat lock_cell sadd
lock_seat-empty s i open_ free = rw (open_, free) (rw open_ refl)

unlock_seat-locked :
    (s : RoomSeats) (i : ℕ)
    → has i s.locked ≡ true
    → unlock_seat s i ≡ (record s { locked = srem i s.locked }, ok tt)
unfolding unlock_seat
unlock_seat-locked s i shut = rw shut refl

-- Locking an empty, unlocked seat and unlocking it gives back the seats, the locks and the index.
pub unlock-lock :
    (s : RoomSeats) (i : ℕ)
    → has i s.locked ≡ false
    → hget i s.seats ≡ none
    → let t = (unlock_seat (lock_seat s i).0 i).0 in
      (t.seats ≡ s.seats)
      × ((j : ℕ) → has j t.locked ≡ has j s.locked)
      × (t.user_seat ≡ s.user_seat)
      × ((unlock_seat (lock_seat s i).0 i).1 ≡ ok tt)
unlock-lock s i open_ free =
    rw
      (
        lock_seat-empty s i open_ free,
        unlock_seat-locked (record s { locked = i ∷ s.locked }) i (ground arith),
      )
      (refl, (λ j. ground (arith, has-srem j i (i ∷ s.locked), has_eq j)), refl, refl)
  where
    has_eq : (j : ℕ) → (i == j) ≡ true → has j s.locked ≡ false
    has_eq j e = ground arith

mute_cell_lem :
    (s : RoomSeats) (i j : ℕ) (m : Bool) (c : Option Cell)
    → hget i s.seats ≡ c
    → let t = (mute_cell s i m c).0 in
      (occupant j t ≡ occupant j s)
      × (i ≢ j → hget j t.seats ≡ hget j s.seats)
      × ((d : SeatAssignment)
          → c ≡ some (some d)
          → (hget i t.seats ≡ some (some (record d { muted = m })))
            × ((mute_cell s i m c).1 ≡ ok true))
      × (c ≡ none → mute_cell s i m c ≡ (s, ok false))
      × (c ≡ some none → mute_cell s i m c ≡ (s, raised))
unfolding mute_cell
mute_cell_lem s i j m none e = (refl, λ ne. refl, λ d f. cc, λ f. refl, λ f. cc)
mute_cell_lem s i j m (some none) e = (refl, λ ne. refl, λ d f. cc, λ f. cc, λ f. refl)
mute_cell_lem s i j m (some (some x)) e = (
  ground (arith, hget-hset j i (some (record x { muted = m })) s.seats),
  λ ne. ground (arith, hget-hset j i (some (record x { muted = m })) s.seats),
  λ d f. ground (arith, hget-hset i i (some (record x { muted = m })) s.seats),
  λ f. cc,
  λ f. cc,
)

-- Muting changes the mute flag of an occupied seat and nothing else, and answers whether there was
-- an occupant; an undecodable seat makes it raise and stays.
pub set_mute_lem :
    (s : RoomSeats) (i j : ℕ) (m : Bool)
    → let t = (set_mute s i m).0 in
      (occupant j t ≡ occupant j s)
      × (i ≢ j → hget j t.seats ≡ hget j s.seats)
      × ((d : SeatAssignment)
          → hget i s.seats ≡ some (some d)
          → (hget i t.seats ≡ some (some (record d { muted = m })))
            × ((set_mute s i m).1 ≡ ok true))
      × (hget i s.seats ≡ none → set_mute s i m ≡ (s, ok false))
      × (hget i s.seats ≡ some none → set_mute s i m ≡ (s, raised))
unfolding set_mute
set_mute_lem s i j m = mute_cell_lem s i j m (hget i s.seats) refl
