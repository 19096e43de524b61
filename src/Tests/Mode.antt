-- ===== src/Tests/Mode.antt =====
-- The room mode with the thresholds 100 and 50 and a grace of 60 seconds.
use mediasoup_socket_io_audi.Prelude.{
  ℕ, ◌≡◌, ◌≤◌, ◌-◌, refl, List, [], ◌∷◌, none, some, true, false, arith,
}
use mediasoup_socket_io_audi.Mode.Controller.{
  interactive, broadcast, hold, ModeDecisionInput, decide,
}
use mediasoup_socket_io_audi.Mode.Service.{
  Config, Room, Heartbeat, evaluate, evaluate_mode, state_after,
}
use mediasoup_socket_io_audi.Mode.Hysteresis.{InZoneSince, decide_lem, demote_needs_streak}

abbrev crowded : ModeDecisionInput
crowded = record {
  current_mode = interactive;
  listener_count = 120;
  speaker_count = 2;
  up_threshold = 100;
  down_threshold = 50;
}

decide_lem_run :
    decide (record crowded { current_mode = (decide crowded).mode })
    ≡ record { mode = (decide crowded).mode; changed = false; transition = hold }
decide_lem_run = (decide_lem crowded).3 (omega arith)

abbrev config : Config
config = record {
  threshold_up = 100;
  threshold_down = 50;
  demote_grace_ms = 60000;
  hls_enabled = true;
  hls_public_base_url = some 1;
}

abbrev room : Room
room = record { mode = some broadcast; demote_eligible_since = none }

abbrev beat : ℕ → Heartbeat
beat t = record { now = t; listener_count = 20; speaker_count = 1; reads = true; closes = false }

abbrev history : List Heartbeat
history = beat 30000 ∷ beat 0 ∷ []

still_broadcast : (state_after config room history).mode ≡ some broadcast
unfolding state_after evaluate evaluate_mode decide
still_broadcast = refl

demotes : (evaluate config (state_after config room history) (beat 60000)).1 ≡ some interactive
unfolding state_after evaluate evaluate_mode decide
demotes = refl

demote_needs_streak_example :
    (t : ℕ) × InZoneSince 50 t (beat 60000 ∷ history) × (60000 ≤ 60000 - t)
demote_needs_streak_example =
    demote_needs_streak config room (beat 60000) history (refl, (refl, tt)) refl (broadcast, refl)
      still_broadcast demotes
