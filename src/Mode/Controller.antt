-- ===== src/Mode/Controller.antt =====
-- `RoomModeController.decide` of src/domains/room/mode/room-mode-controller.ts.
use mediasoup_socket_io_audi.Prelude.{ℕ, Bool, true, false, leb, if◌then◌else◌, ◌&&◌}

pub data RoomMode : Type 0 where
  interactive broadcast : RoomMode

pub data ModeTransition : Type 0 where
  promote demote hold : ModeTransition

pub record ModeDecisionInput : Type 0 where
  pub current_mode : RoomMode
  pub listener_count : ℕ
  pub speaker_count : ℕ
  pub up_threshold : ℕ
  pub down_threshold : ℕ

pub record ModeDecision : Type 0 where
  pub mode : RoomMode
  pub changed : Bool
  pub transition : ModeTransition

abbrev pub is_interactive : RoomMode → Bool
is_interactive interactive = true
is_interactive broadcast = false

abbrev pub is_broadcast : RoomMode → Bool
is_broadcast interactive = false
is_broadcast broadcast = true

unfoldable pub decide : ModeDecisionInput → ModeDecision
decide i =
    if is_interactive i.current_mode
      && (leb i.up_threshold i.listener_count && leb 1 i.speaker_count)
    then record { mode = broadcast; changed = true; transition = promote }
    else (if is_broadcast i.current_mode && leb i.listener_count i.down_threshold
        then record { mode = interactive; changed = true; transition = demote }
        else record { mode = i.current_mode; changed = false; transition = hold })
