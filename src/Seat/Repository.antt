-- ===== src/Seat/Repository.antt =====
-- `SeatRepository` of src/domains/seat/seat.repository.ts: each method calls one script and turns
-- its answer, or the failure of the call, into a result. The invitations, which have a repository
-- of their own, are left out.
use mediasoup_socket_io_audi.Prelude.{
  is_some, ℕ, zero, suc, List, [], ◌∷◌, Option, none, some, Bool, false, if◌then◌else◌, has,
}
use mediasoup_socket_io_audi.Prelude.Int.{ℤ}
use mediasoup_socket_io_audi.Prelude.Redis.{Hash, hget, Link, answers, fails, answer_lost}
use mediasoup_socket_io_audi.Seat.Types.{
  Cell, RoomSeats, ScriptError, seat_invalid, seat_locked, seat_taken, not_seated, already_locked,
  not_locked, Reply, ok, err, raised, user_of,
}
use mediasoup_socket_io_audi.Seat.Scripts.{
  take_seat, leave_seat, assign_seat, set_mute, lock_seat, unlock_seat,
}
use mediasoup_socket_io_audi.Seat.Retention.{
  reserve_seat, reclaim_seat, sweep_expired, shrink_evict,
}

-- The messages of `Errors` that the seats use.
pub data SeatError : Type 0 where
  invalid_seat locked_seat taken_seat unseated seat_already_locked seat_not_locked internal_error :
      SeatError

-- mapError
abbrev pub map_error : ScriptError → SeatError
map_error seat_invalid = invalid_seat
map_error seat_locked = locked_seat
map_error seat_taken = taken_seat
map_error not_seated = unseated
map_error already_locked = seat_already_locked
map_error not_locked = seat_not_locked

pub data SeatActionResult {ℓ} (A : Type ℓ) : Type ℓ where
  success : A → SeatActionResult A
  failure : SeatError → SeatActionResult A

-- What a call leaves in Redis, and its answer, if one arrives.
abbrev pub call {ℓ} : {A : Type ℓ} → Link → RoomSeats → RoomSeats × A → RoomSeats × Option A
call answers s r = (r.0, some r.1)
call fails s r = (s, none)
call answer_lost s r = (r.0, none)

abbrev pub to_result {ℓ} : {A : Type ℓ} → Option (Reply A) → SeatActionResult A
to_result none = failure internal_error
to_result (some raised) = failure internal_error
to_result (some (err e)) = failure (map_error e)
to_result (some (ok a)) = success a

abbrev pub with_result {ℓ} :
    {A : Type ℓ} → RoomSeats × Option (Reply A) → RoomSeats × SeatActionResult A
with_result r = (r.0, to_result r.1)

-- takeSeat
unfoldable pub try_take_seat :
    Link → RoomSeats → ℤ → ℕ → ℕ → RoomSeats × SeatActionResult (ℕ × List ℕ)
try_take_seat link s i u seat_count = with_result (call link s (take_seat s i u seat_count))

-- leaveSeat and removeSeat
unfoldable pub try_leave_seat : Link → RoomSeats → ℕ → RoomSeats × SeatActionResult (ℕ × List ℕ)
try_leave_seat link s u = with_result (call link s (leave_seat s u))

-- assignSeat
unfoldable pub try_assign_seat :
    Link → RoomSeats → ℤ → ℕ → ℕ → RoomSeats × SeatActionResult (ℕ × List ℕ)
try_assign_seat link s i u seat_count = with_result (call link s (assign_seat s i u seat_count))

abbrev pub is_one : Option (Reply Bool) → Bool
is_one none = false
is_one (some raised) = false
is_one (some (err e)) = false
is_one (some (ok b)) = b

-- setMute
unfoldable pub try_set_mute : Link → RoomSeats → ℕ → Bool → RoomSeats × Bool
try_set_mute link s i muted = let (t, r) = call link s (set_mute s i muted) in (t, is_one r)

-- lockSeat
unfoldable pub try_lock_seat : Link → RoomSeats → ℕ → RoomSeats × SeatActionResult (Option ℕ)
try_lock_seat link s i = with_result (call link s (lock_seat s i))

-- unlockSeat
unfoldable pub try_unlock_seat : Link → RoomSeats → ℕ → RoomSeats × SeatActionResult (Unit {0})
try_unlock_seat link s i = with_result (call link s (unlock_seat s i))

abbrev pub indices : Option (Reply (List ℕ)) → List ℕ
indices none = []
indices (some raised) = []
indices (some (err e)) = []
indices (some (ok reserved)) = reserved

-- reserveSeat
unfoldable pub try_reserve_seat : Link → RoomSeats → ℕ → ℕ → RoomSeats × List ℕ
try_reserve_seat link s u now = let (t, r) = call link s (reserve_seat s u now) in (t, indices r)

abbrev pub or_none {ℓ} : {A : Type ℓ} → Option (Option A) → Option A
or_none none = none
or_none (some r) = r

-- reclaimSeat
unfoldable pub try_reclaim_seat : Link → RoomSeats → ℕ → ℕ → ℕ → RoomSeats × Option (ℕ × Bool)
try_reclaim_seat link s u now grace =
    let (t, r) = call link s (reclaim_seat s u now grace) in (t, or_none r)

abbrev pub or_empty {ℓ} : {A : Type ℓ} → Option (List A) → List A
or_empty none = []
or_empty (some r) = r

-- sweepExpiredReservations
unfoldable pub try_sweep_expired : Link → RoomSeats → ℕ → ℕ → RoomSeats × List (ℕ × ℕ)
try_sweep_expired link s now grace =
    let (t, r) = call link s (sweep_expired s now grace) in (t, or_empty r)

-- evictSeatsAboveCount
unfoldable pub try_shrink_evict : Link → RoomSeats → ℕ → RoomSeats × List (ℕ × ℕ)
try_shrink_evict link s new_seat_count =
    let (t, r) = call link s (shrink_evict s new_seat_count) in (t, or_empty r)

pub record SeatData : Type 0 where
  pub index : ℕ
  pub user_id : Option ℕ
  pub muted : Bool
  pub locked : Bool
  pub reserved : Bool

-- One row; `none` where `JSON.parse` throws.
abbrev pub seat_row : ℕ → Bool → Option Cell → Option SeatData
seat_row i shut none =
    some (record { index = i; user_id = none; muted = false; locked = shut; reserved = false })
seat_row i shut (some none) = none
seat_row i shut (some (some d)) = some (record {
  index = i;
  user_id = some d.user_id;
  muted = d.muted;
  locked = shut;
  reserved = is_some d.disconnected_at;
})

cons_row : Option SeatData → Option (List SeatData) → Option (List SeatData)
cons_row none rows = none
cons_row (some row) none = none
cons_row (some row) (some rows) = some (row ∷ rows)

-- The rows of `n` seats from the seat `i` on.
unfoldable pub seat_rows : Hash Cell → List ℕ → ℕ → ℕ → Option (List SeatData)
unfolding cons_row
seat_rows seats locked_set i zero = some []
seat_rows seats locked_set i (suc n) =
    cons_row (seat_row i (has i locked_set) (hget i seats)) (seat_rows seats locked_set (suc i) n)

-- getSeats: HGETALL sees the room as `s`, SMEMBERS, a command of its own, as `t`.
unfoldable pub get_seats : Link → RoomSeats → RoomSeats → ℕ → List SeatData
get_seats answers s t seat_count = or_empty (seat_rows s.seats t.locked 0 seat_count)
get_seats fails s t seat_count = []
get_seats answer_lost s t seat_count = []

-- getSeatOccupant
unfoldable pub get_seat_occupant : Link → RoomSeats → ℕ → Option ℕ
get_seat_occupant answers s i = user_of (hget i s.seats)
get_seat_occupant fails s i = none
get_seat_occupant answer_lost s i = none

-- getUserSeat
unfoldable pub get_user_seat : Link → RoomSeats → ℕ → Option ℕ
get_user_seat answers s u = s.user_seat u
get_user_seat fails s u = none
get_user_seat answer_lost s u = none

abbrev pub cleared : RoomSeats → List ℕ → RoomSeats
cleared s scanned = record {
  seats = [];
  locked = [];
  user_seat = λ u. if has u scanned then none else s.user_seat u;
}

-- clearRoom, with the users whose reverse index the SCAN found.
unfoldable pub clear_seats : Link → RoomSeats → List ℕ → RoomSeats
clear_seats answers s scanned = cleared s scanned
clear_seats fails s scanned = s
clear_seats answer_lost s scanned = cleared s scanned
