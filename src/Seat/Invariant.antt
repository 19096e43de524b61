-- ===== src/Seat/Invariant.antt =====
-- What holds of a room's seats between two scripts (the children: each script keeps it).
pub mod Seating
pub mod Locking
pub mod Held
use mediasoup_socket_io_audi.Prelude.{
  ℕ, ◌≡◌, ◌≢◌, refl, List, [], ◌∷◌, Option, none, some, Bool, true, false, ◌==◌, leb, ltb,
  if◌then◌else◌, ◌&&◌, not, arith, has, Option-cases, Bool-cases, inl, inr,
}
use mediasoup_socket_io_audi.Prelude.Int.{ℤ, pos, negsuc}
use mediasoup_socket_io_audi.Prelude.Redis.{
  Hash, hget, hset, hdel, update, Distinct, hget-hset, hget-hdel, hset-Distinct, hdel-Distinct,
  has-sadd, has-srem,
}
use mediasoup_socket_io_audi.Seat.Types.{
  SeatAssignment, Cell, RoomSeats, held_by, occupant, user_of, fresh_seat, empty_room,
}
use mediasoup_socket_io_audi.Seat.Scan.{
  purge, evict, picks, decoded, hget-purge, purge-Distinct, hget-evict, user_seat-evict,
  locked-evict, evict-Distinct,
}
use mediasoup_socket_io_audi.Seat.Scripts.{
  held_elsewhere, heal_and_seat, take_seat, leave_seat, assign_seat, set_mute, lock_seat,
  unlock_seat, take_free, displace, mute_cell, lock_cell,
}

-- No user is shown on two seats, a locked seat is empty, and an entry of the reverse index names a
-- seat that shows its user. (The index may lack a seated user: its keys expire.)
pub record Inv (s : RoomSeats) : Type 0 where
  pub distinct : Distinct s.seats
  pub single : (i j u : ℕ) → occupant i s ≡ some u → occupant j s ≡ some u → i ≡ j
  pub unlocked : (i : ℕ) → has i s.locked ≡ true → hget i s.seats ≡ none
  pub indexed : (u i : ℕ) → s.user_seat u ≡ some i → occupant i s ≡ some u

pub empty_room-Inv : Inv empty_room
unfolding hget
empty_room-Inv = record {
  distinct = tt;
  single = λ i j u e f. cc;
  unlocked = λ i e. refl;
  indexed = λ u i e. cc;
}
