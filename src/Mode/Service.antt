-- ===== src/Mode/Service.antt =====
-- `RoomModeService` of src/domains/room/mode/room-mode.service.ts for one room: the stored mode, the
-- start of the current demote streak, and `evaluate` and `forget`.
use mediasoup_socket_io_audi.Prelude.{
  ℕ, ◌-◌, List, [], ◌∷◌, Option, none, some, Bool, ltb, if◌then◌else◌, ◌&&◌,
}
use mediasoup_socket_io_audi.Mode.Controller.{
  RoomMode, ModeTransition, promote, demote, hold, ModeDecision, decide, is_broadcast,
}

-- The settings that the service reads; the base URL of the playlists is a number here.
pub record Config : Type 0 where
  pub threshold_up : ℕ
  pub threshold_down : ℕ
  pub demote_grace_ms : ℕ
  pub hls_enabled : Bool
  pub hls_public_base_url : Option ℕ

-- The mode in the room's state key, `none` once the room is closed, and `demoteEligibleSince`.
pub record Room : Type 0 where
  pub mode : Option RoomMode
  pub demote_eligible_since : Option ℕ

-- One heartbeat: its time, the two counts, whether its read of the state succeeds, and whether the room
-- closes between the read and the write of its state.
pub record Heartbeat : Type 0 where
  pub now : ℕ
  pub listener_count : ℕ
  pub speaker_count : ℕ
  pub reads : Bool
  pub closes : Bool

-- The `room:mode` event with the playlist's base URL, if it has one, and the transition hook.
pub record Flip : Type 0 where
  pub new_mode : RoomMode
  pub transition : ModeTransition
  pub listeners : ℕ
  pub playback_base : Option ℕ

playback : Config → RoomMode → Option ℕ
playback c mode = if is_broadcast mode && c.hls_enabled then c.hls_public_base_url else none

-- Persist and announce a decided flip.
flip : Config → Room → Heartbeat → ModeDecision → Room × Option RoomMode × List Flip
unfolding playback
flip c r h d = if h.closes then (record r { mode = none }, none, []) else (
  record r { mode = some d.mode },
  some d.mode,
  record {
    new_mode = d.mode;
    transition = d.transition;
    listeners = h.listener_count;
    playback_base = playback c d.mode;
  }
      ∷ [],
)

abbrev pub since_or : Option ℕ → ℕ → ℕ
since_or none now = now
since_or (some since) now = since

apply_decision :
    Config
    → Room
    → RoomMode
    → Heartbeat
    → ModeDecision
    → ModeTransition
    → Room × Option RoomMode × List Flip
unfolding flip
apply_decision c r current h d demote =
    if ltb (h.now - since_or r.demote_eligible_since h.now) c.demote_grace_ms
    then (
      record r { demote_eligible_since = some (since_or r.demote_eligible_since h.now) },
      some current,
      [],
    )
    else flip c (record r { demote_eligible_since = none }) h d
apply_decision c r current h d promote = flip c (record r { demote_eligible_since = none }) h d
apply_decision c r current h d hold = (record r { demote_eligible_since = none }, some current, [])

unfoldable pub evaluate_mode :
    Config → Room → Heartbeat → Option RoomMode → Room × Option RoomMode × List Flip
unfolding apply_decision
evaluate_mode c r h none = (r, none, [])
evaluate_mode c r h (some current) =
    let d = decide (record {
      current_mode = current;
      listener_count = h.listener_count;
      speaker_count = h.speaker_count;
      up_threshold = c.threshold_up;
      down_threshold = c.threshold_down;
    }) in
    apply_decision c r current h d d.transition

-- evaluate; a read that fails throws, which has no answer either.
unfoldable pub evaluate : Config → Room → Heartbeat → Room × Option RoomMode × List Flip
unfolding evaluate_mode
evaluate c r h = if h.reads then evaluate_mode c r h r.mode else (r, none, [])

-- forget
unfoldable pub forget : Room → Room
forget r = record r { demote_eligible_since = none }

-- The room after a history of heartbeats, latest first, from the room `r`.
unfoldable pub state_after : Config → Room → List Heartbeat → Room
state_after c r [] = r
state_after c r (h ∷ hs) = (evaluate c (state_after c r hs) h).0
