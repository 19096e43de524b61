-- ===== src/Room/State.antt =====
-- `RoomStateRepository` of src/domains/room/roomState.ts for one room: the key `room:state:{id}`, its
-- TTL, and the three scripts, which change it only if it is there. A text that does not parse is
-- not considered: only this class writes the key.
use mediasoup_socket_io_audi.Prelude.{ℕ, suc, ◌+◌, ◌-◌, Option, none, some, ltb, if◌then◌else◌}
use mediasoup_socket_io_audi.Prelude.Int.{ℤ, pos, negsuc}
use mediasoup_socket_io_audi.Mode.Controller.{RoomMode, interactive}

-- TTL, in milliseconds.
abbrev pub state_ttl_ms : ℕ
state_ttl_ms = 86400000

pub data SeatCountSource : Type 0 where
  default client laravel : SeatCountSource

-- `mode` and `seat_count_source` are absent in states that older versions wrote.
pub record RoomState : Type 0 where
  pub participant_count : ℕ
  pub seat_count : ℕ
  pub seat_count_source : Option SeatCountSource
  pub mode : Option RoomMode
  pub created_at : ℕ
  pub last_activity_at : ℕ

pub record Stored : Type 0 where
  pub state : RoomState
  pub deadline : ℕ

abbrev pub StateKey : Type 0
StateKey = Option Stored

-- GET
abbrev pub current : ℕ → StateKey → Option RoomState
current now none = none
current now (some k) = if ltb now k.deadline then some k.state else none

abbrev pub setex : ℕ → RoomState → StateKey
setex now s = some (record { state = s; deadline = now + state_ttl_ms })

-- save
unfoldable pub save : RoomState → ℕ → StateKey
save s now = setex now s

abbrev pub or_interactive : Option RoomMode → RoomMode
or_interactive none = interactive
or_interactive (some m) = m

abbrev pub with_mode : RoomState → RoomState
with_mode s = record s { mode = some (or_interactive s.mode) }

abbrev pub map_state : (RoomState → RoomState) → Option RoomState → Option RoomState
map_state f none = none
map_state f (some s) = some (f s)

-- get: a state with no mode reads as interactive.
unfoldable pub get : StateKey → ℕ → Option RoomState
get k now = map_state with_mode (current now k)

-- delete
abbrev pub delete : StateKey → StateKey
delete k = none

-- A script that decodes the state, changes it and sets it with a new TTL, if it is there.
abbrev pub update_if_exists :
    (RoomState → RoomState) → ℕ → StateKey → Option RoomState → StateKey × Option RoomState
update_if_exists f now k none = (k, none)
update_if_exists f now k (some s) = (setex now (f s), some (f s))

-- `math.max(0, n + delta)`
abbrev pub add_at_least_zero : ℕ → ℤ → ℕ
add_at_least_zero n (pos d) = n + d
add_at_least_zero n (negsuc d) = n - suc d

abbrev pub count_of : StateKey × Option RoomState → StateKey × Option ℕ
count_of (k, none) = (k, none)
count_of (k, some s) = (k, some s.participant_count)

-- adjustParticipantCount
unfoldable pub adjust_participant_count : StateKey → ℤ → ℕ → StateKey × Option ℕ
adjust_participant_count k delta now = count_of (
    update_if_exists
      (λ s. record s {
        participant_count = add_at_least_zero s.participant_count delta;
        last_activity_at = now;
      })
      now k (current now k))

-- reconcileParticipantCount
unfoldable pub reconcile_participant_count : StateKey → ℕ → ℕ → StateKey × Option ℕ
reconcile_participant_count k count now =
    count_of (update_if_exists (λ s. record s { participant_count = count }) now k (current now k))

abbrev pub mode_of : StateKey × Option RoomState → StateKey × Option RoomMode
mode_of (k, none) = (k, none)
mode_of (k, some s) = (k, s.mode)

-- setMode
unfoldable pub set_mode : StateKey → RoomMode → ℕ → StateKey × Option RoomMode
set_mode k m now =
    mode_of (update_if_exists (λ s. record s { mode = some m }) now k (current now k))
