-- ===== src/Seat/Steps.antt =====
-- The scripts of one room run one after another, in the order in which Redis serves them, between
-- losses of whole keys: a key of the reverse index or the set of locked seats may expire at any
-- time. The seats hash, whose EXPIRE every seating renews with that of the index entry, outlives
-- the entries, so it is lost when none is left; clearRoom of seat.repository.ts deletes all keys.
use mediasoup_socket_io_audi.Prelude.{ℕ, [], none, Bool, ◌≡◌}
use mediasoup_socket_io_audi.Prelude.Int.{ℤ}
use mediasoup_socket_io_audi.Prelude.Redis.{update}
use mediasoup_socket_io_audi.Seat.Types.{RoomSeats, empty_room}
use mediasoup_socket_io_audi.Seat.Scripts.{
  take_seat, leave_seat, assign_seat, set_mute, lock_seat, unlock_seat,
}
use mediasoup_socket_io_audi.Seat.Retention.{
  reserve_seat, reclaim_seat, sweep_expired, shrink_evict,
}

pub data Script : Type 0 where
  take assign : ℤ → ℕ → ℕ → Script
  leave : ℕ → Script
  mute : ℕ → Bool → Script
  lock unlock : ℕ → Script
  reserve : ℕ → ℕ → Script
  reclaim : ℕ → ℕ → ℕ → Script
  sweep : ℕ → ℕ → Script
  shrink : ℕ → Script

unfoldable pub run_script : Script → RoomSeats → RoomSeats
run_script (take i u count) s = (take_seat s i u count).0
run_script (assign i u count) s = (assign_seat s i u count).0
run_script (leave u) s = (leave_seat s u).0
run_script (mute i m) s = (set_mute s i m).0
run_script (lock i) s = (lock_seat s i).0
run_script (unlock i) s = (unlock_seat s i).0
run_script (reserve u now) s = (reserve_seat s u now).0
run_script (reclaim u now grace) s = (reclaim_seat s u now grace).0
run_script (sweep now grace) s = (sweep_expired s now grace).0
run_script (shrink count) s = (shrink_evict s count).0

pub data Step (s : RoomSeats) : RoomSeats → Type 0 where
  script : (c : Script) → Step s (run_script c s)
  index_expires : (u : ℕ) → Step s (record s { user_seat = update s.user_seat u none })
  locks_expire : Step s (record s { locked = [] })
  seats_expire : ((u : ℕ) → s.user_seat u ≡ none) → Step s (record s { seats = [] })
  clear_room : Step s empty_room

-- The states that a room reaches from empty keys.
pub data Reach : RoomSeats → Type 0 where
  start : Reach empty_room
  next : {s t : RoomSeats} → Reach s → Step s t → Reach t
