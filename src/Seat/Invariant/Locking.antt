-- ===== src/Seat/Invariant/Locking.antt =====
-- SET_MUTE, LOCK_SEAT and UNLOCK_SEAT keep the invariant of a room's seats.
use mediasoup_socket_io_audi.Prelude.{
  ℕ, ◌≡◌, refl, Option, none, some, Bool, ◌==◌, if◌then◌else◌, arith, has, Bool-cases, inl, inr,
}
use mediasoup_socket_io_audi.Prelude.Redis.{
  hget, hset, hget-hset, hget-hdel, hset-Distinct, hdel-Distinct, has-sadd, has-srem,
}
use mediasoup_socket_io_audi.Seat.Types.{SeatAssignment, Cell, RoomSeats}
use mediasoup_socket_io_audi.Seat.Scripts.{set_mute, lock_seat, unlock_seat, mute_cell, lock_cell}
use mediasoup_socket_io_audi.Seat.Invariant.{Inv}

-- Rewriting a seat's mute flag or marker, its user kept, keeps the invariant.
pub rewrite_cell-Inv :
    (s : RoomSeats) (i : ℕ) (d d' : SeatAssignment)
    → hget i s.seats ≡ some (some d)
    → d'.user_id ≡ d.user_id
    → Inv s
    → Inv (record s { seats = hset i (some d') s.seats })
rewrite_cell-Inv s i d d' e same v = record {
  distinct = hset-Distinct i (some d') s.seats v.distinct;
  single = λ j k w f g. ground (arith, at j, at k, v.single j k w);
  unlocked = λ j f. ground (arith, at j, v.unlocked j);
  indexed = λ w j f. ground (arith, at j, v.indexed w j);
}
  where
    at :
        (j : ℕ)
        → hget j (hset i (some d') s.seats) ≡ (if i == j then some (some d') else hget j s.seats)
    at j = hget-hset j i (some d') s.seats

mute_cell-Inv :
    (s : RoomSeats) (i : ℕ) (m : Bool) (c : Option Cell)
    → hget i s.seats ≡ c
    → Inv s
    → Inv (mute_cell s i m c).0
unfolding mute_cell
mute_cell-Inv s i m none e v = v
mute_cell-Inv s i m (some none) e v = v
mute_cell-Inv s i m (some (some d)) e v = rewrite_cell-Inv s i d (record d { muted = m }) e refl v

pub set_mute-Inv : (s : RoomSeats) (i : ℕ) (m : Bool) → Inv s → Inv (set_mute s i m).0
unfolding set_mute
set_mute-Inv s i m v = mute_cell-Inv s i m (hget i s.seats) refl v

lock_cell-Inv :
    (s : RoomSeats) (i : ℕ) (c : Option Cell) → hget i s.seats ≡ c → Inv s → Inv (lock_cell s i c).0
unfolding lock_cell
lock_cell-Inv s i none e v = record {
  distinct = v.distinct;
  single = v.single;
  unlocked = λ j f. ground (arith, has-sadd j i s.locked, v.unlocked j);
  indexed = v.indexed;
}
lock_cell-Inv s i (some none) e v = v
lock_cell-Inv s i (some (some d)) e v = record {
  distinct = hdel-Distinct i s.seats v.distinct;
  single =
      λ j k w f g. ground (arith, hget-hdel j i s.seats, hget-hdel k i s.seats, v.single j k w);
  unlocked = λ j f. ground (arith, has-sadd j i s.locked, hget-hdel j i s.seats, v.unlocked j);
  indexed = λ w j f. ground (arith, hget-hdel j i s.seats, v.indexed w j);
}

pub lock_seat-Inv : (s : RoomSeats) (i : ℕ) → Inv s → Inv (lock_seat s i).0
unfolding lock_seat
lock_seat-Inv s i v = grind (arith, lock_cell-Inv s i (hget i s.seats))

pub unlock_seat-Inv : (s : RoomSeats) (i : ℕ) → Inv s → Inv (unlock_seat s i).0
unfolding unlock_seat
unlock_seat-Inv s i v = elim (Bool-cases (has i s.locked)) [
  | inl shut ↦
      rw (shut, unlock_seat)
        (record {
          distinct = v.distinct;
          single = v.single;
          unlocked = λ j f. ground (arith, has-srem j i s.locked, v.unlocked j);
          indexed = v.indexed;
        })
  | inr open_ ↦ rw (open_, unlock_seat) v
]
