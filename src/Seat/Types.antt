-- ===== src/Seat/Types.antt =====
-- What Redis holds for the seats of one room, and what the scripts of
-- src/domains/seat/seat.lua-scripts.ts answer. User ids are numbers: the scripts compare their
-- decimal texts. A stored text that `cjson.decode` refuses is the cell `none`.
use mediasoup_socket_io_audi.Prelude.{ℕ, List, [], Option, none, some, Bool, false, ◌==◌}
use mediasoup_socket_io_audi.Prelude.Redis.{Hash, hget}

pub record SeatAssignment : Type 0 where
  pub user_id : ℕ
  pub muted : Bool
  pub disconnected_at : Option ℕ

abbrev pub Cell : Type 0
Cell = Option SeatAssignment

-- The hash `room:{id}:seats`, the set `room:{id}:locked_seats` and the reverse index
-- `room:{id}:seat:user:{user}`.
pub record RoomSeats : Type 0 where
  pub seats : Hash Cell
  pub locked : List ℕ
  pub user_seat : ℕ → Option ℕ

pub data ScriptError : Type 0 where
  seat_invalid seat_locked seat_taken not_seated already_locked not_locked : ScriptError

-- `raised`: a `cjson.decode` outside `pcall` failed and ended the script.
pub data Reply {ℓ} (A : Type ℓ) : Type ℓ where
  ok : A → Reply A
  err : ScriptError → Reply A
  raised : Reply A

abbrev pub fresh_seat : ℕ → SeatAssignment
fresh_seat u = record { user_id = u; muted = false; disconnected_at = none }

abbrev pub held_by : ℕ → Cell → Bool
held_by u none = false
held_by u (some d) = d.user_id == u

abbrev pub user_of : Option Cell → Option ℕ
user_of none = none
user_of (some none) = none
user_of (some (some d)) = some d.user_id

-- The user whom the seats hash shows on a seat.
abbrev pub occupant : ℕ → RoomSeats → Option ℕ
occupant i s = user_of (hget i s.seats)

abbrev pub empty_room : RoomSeats
empty_room = record { seats = []; locked = []; user_seat = λ u. none }
