-- ===== src/Seat/Safety.antt =====
-- Properties of every state that a room's seats reach.
use mediasoup_socket_io_audi.Prelude.{refl, arith}
use mediasoup_socket_io_audi.Prelude.Redis.{hget}
use mediasoup_socket_io_audi.Seat.Types.{RoomSeats}
use mediasoup_socket_io_audi.Seat.Invariant.{Inv, empty_room-Inv}
use mediasoup_socket_io_audi.Seat.Invariant.Seating.{take_seat-Inv, leave_seat-Inv, assign_seat-Inv}
use mediasoup_socket_io_audi.Seat.Invariant.Locking.{set_mute-Inv, lock_seat-Inv, unlock_seat-Inv}
use mediasoup_socket_io_audi.Seat.Invariant.Held.{
  reserve_seat-Inv, reclaim_seat-Inv, sweep_expired-Inv, shrink_evict-Inv,
}
use mediasoup_socket_io_audi.Seat.Steps.{
  Script, take, assign, leave, mute, lock, unlock, reserve, reclaim, sweep, shrink, run_script,
  Step, script, index_expires, locks_expire, seats_expire, clear_room, Reach, start, next,
}

run_script-Inv : (c : Script) (s : RoomSeats) → Inv s → Inv (run_script c s)
unfolding run_script
run_script-Inv (take i u count) s v = take_seat-Inv s i u count v
run_script-Inv (assign i u count) s v = assign_seat-Inv s i u count v
run_script-Inv (leave u) s v = leave_seat-Inv s u v
run_script-Inv (mute i m) s v = set_mute-Inv s i m v
run_script-Inv (lock i) s v = lock_seat-Inv s i v
run_script-Inv (unlock i) s v = unlock_seat-Inv s i v
run_script-Inv (reserve u now) s v = reserve_seat-Inv s u now v
run_script-Inv (reclaim u now grace) s v = reclaim_seat-Inv s u now grace v
run_script-Inv (sweep now grace) s v = sweep_expired-Inv s now grace v
run_script-Inv (shrink count) s v = shrink_evict-Inv s count v

Step-Inv : {s t : RoomSeats} → Step s t → Inv s → Inv t
Step-Inv {s} (script c) v = run_script-Inv c s v
Step-Inv (index_expires u) v = record {
  distinct = v.distinct;
  single = v.single;
  unlocked = v.unlocked;
  indexed = λ w i e. ground (arith, v.indexed w i);
}
Step-Inv locks_expire v = record {
  distinct = v.distinct;
  single = v.single;
  unlocked = λ i e. cc;
  indexed = v.indexed;
}
Step-Inv (seats_expire gone) v = record {
  distinct = tt;
  single = λ i j u e f. unfold hget in cc;
  unlocked = λ i e. unfold hget in refl;
  indexed = λ u i e. cc (gone u);
}
Step-Inv clear_room v = empty_room-Inv

-- In every state that the scripts and the expiry of keys reach from an empty room, no two seats
-- show one user, a locked seat is empty, and an entry of the reverse index names a seat that shows
-- its user.
pub Reach-Inv : {s : RoomSeats} → Reach s → Inv s
Reach-Inv start = empty_room-Inv
Reach-Inv (next r st) = Step-Inv st (Reach-Inv r)
