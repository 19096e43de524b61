-- ===== src/Tests/Lifecycle.antt =====
-- A room that is saved at 0, counted, closed and swept.
use mediasoup_socket_io_audi.Prelude.{
  ℕ, zero, suc, ◌+◌, ◌≡◌, ◌≤◌, refl, List, [], ◌∷◌, none, some, true, false, ◌&&◌, ◌==◌,
  if◌then◌else◌, arith, has, take,
}
use mediasoup_socket_io_audi.Prelude.Int.{ℤ, pos, negsuc}
use mediasoup_socket_io_audi.Prelude.Redis.{answers}
use mediasoup_socket_io_audi.Room.State.{get, save}
use mediasoup_socket_io_audi.Room.Counts.{
  Change, apply_all, get-apply_all-gone, adjust_all, count_at, adjust_all-balance,
}
use mediasoup_socket_io_audi.Room.Coalescer.{no_status, flush_all}
use mediasoup_socket_io_audi.Room.Delivered.{
  Call, submits, flushes, calls, last_of, last_of-flush_all,
}
use mediasoup_socket_io_audi.Room.AutoClose.{
  Fleet, found, get_inactive, should_close, get_candidates, filter_activity_expired,
  max_presence_checks,
}
use mediasoup_socket_io_audi.Room.Sweeps.{
  is_candidate, empty_for, get_inactive_lem, Busy, get_inactive-Busy,
}
use mediasoup_socket_io_audi.Room.Grace.{EmptyWithin, closable-observe_all}
use mediasoup_socket_io_audi.Room.Presence.{observe}
use mediasoup_socket_io_audi.Room.Manager.{
  Manager, Init, Cleanup, live, ended, new_state, do_create_room, end_heartbeat,
}
use mediasoup_socket_io_audi.Room.Closing.{do_create_room_lem}
use mediasoup_socket_io_audi.Room.Races.{
  Play, Steps, done, ◌then◌, beat_ends, tick, closed, flushed, Over, finish_close-Steps,
  stale_presence,
}

get-apply_all-gone_run :
    get (apply_all none ((5, Change.adjust (pos 1)) ∷ (6, Change.reconcile 4) ∷ [])) 7 ≡ none
unfolding get
get-apply_all-gone_run =
    get-apply_all-gone none ((5, Change.adjust (pos 1)) ∷ (6, Change.reconcile 4) ∷ []) 0 7 refl
      (omega arith, (omega arith, omega arith))

abbrev counts : List (ℕ × ℤ)
counts = (10, pos 3) ∷ (20, negsuc 0) ∷ []

adjust_all-balance_example : count_at (adjust_all (save (new_state 0) 0) counts) 30 ≡ some 2
adjust_all-balance_example =
    adjust_all-balance (new_state 0) 0 30 counts (omega arith, tt)
      (omega arith, (omega arith, omega arith))

abbrev coalesced : List Call
coalesced =
    submits 9 (live 3) ∷ submits 8 (live 1) ∷ Call.tick ∷ submits 9 (live 4) ∷ flushes 9 ended ∷ []

last_of-flush_all_example : last_of 9 (flush_all (calls no_status coalesced)).sent ≡ some ended
last_of-flush_all_example = last_of-flush_all 9 coalesced tt

abbrev fleet : Fleet
fleet = record {
  local = 1 ∷ 2 ∷ [];
  scanned = [];
  activity = λ r. found false;
  owner = λ r. found true;
  presence = λ r. if r == 1 then some (0, 100000) else some (5, 100000);
}

get_inactive_lem_example :
    has 1 (get_inactive true 1 100000 60000 fleet (λ r. some 20000)).1
    ≡ (is_candidate true 1 fleet 1 && empty_for 100000 60000 (some 20000) (some (0, 100000)))
unfolding get_candidates filter_activity_expired
get_inactive_lem_example =
    (get_inactive_lem true 1 100000 60000 1 fleet (λ r. some 20000)).1 (omega arith)

-- Sixty rooms, of which all but the last are in use.
abbrev rooms_from : ℕ → ℕ → List ℕ
rooms_from zero r = []
rooms_from (suc n) r = r ∷ rooms_from n (suc r)

abbrev crowd : Fleet
crowd = record {
  local = rooms_from 60 0;
  scanned = [];
  activity = λ r. found false;
  owner = λ r. found true;
  presence = λ r. if r == 59 then some (0, 100000) else some (5, 100000);
}

in_use_from : (n r : ℕ) → r + n ≤ 59 → Busy crowd.presence (rooms_from n r)
in_use_from zero r le = tt
in_use_from (suc n) r le = ((4, 100000, ground arith), in_use_from n (suc r) (omega arith))

crowd_in_use : Busy crowd.presence (take max_presence_checks (get_candidates true 1 crowd))
unfolding get_candidates filter_activity_expired
crowd_in_use = in_use_from 50 0 (omega arith)

get_inactive-Busy_example : (get_inactive true 1 100000 60000 crowd (λ r. some 0)).1 ≡ []
get_inactive-Busy_example = get_inactive-Busy true 1 100000 60000 crowd (λ r. some 0) crowd_in_use

abbrev grace_observations : List (ℕ × ℕ)
grace_observations = (2, 1000) ∷ (0, 2000) ∷ (0, 40000) ∷ []

closable-observe_all_example : EmptyWithin 70000 60000 grace_observations
unfolding observe should_close
closable-observe_all_example =
    (closable-observe_all 70000 60000 0 70000 grace_observations
      (omega arith, (omega arith, (omega arith, omega arith))) refl).1

abbrev fresh : Manager
fresh = record {
  hosted = false;
  key = none;
  zero_since = none;
  claimed = true;
  coalescer = no_status;
}

-- Laravel refuses the room.
abbrev refused : Init
refused = record {
  initialized = true;
  read = true;
  save_link = answers;
  accepted = false;
  release_link = answers;
}

do_create_room_lem_example : (do_create_room 9 refused 50 fresh).1 ≡ false
unfolding get
do_create_room_lem_example = (do_create_room_lem 9 50 refused fresh refl).0

abbrev open_room : Manager
open_room = record fresh { hosted = true; key = save (new_state 0) 0 }

abbrev tidy : Cleanup
tidy = record { cluster_closes = true; delete_link = answers; release_link = answers; read = true }

abbrev closing : Play
closing = record { manager = open_room; closing = true; beats = 1; leavers = 0 }

abbrev later : Play
later = record (closed 9 closing) {
  manager = flushed (end_heartbeat 9 3 (closed 9 closing).manager);
  beats = 0;
}

finish_close-Steps_example : later.manager.hosted ≡ false
finish_close-Steps_example =
    (finish_close-Steps 9 closing later refl (beat_ends 3 0 refl then tick then done)
      (refl, (refl, tt))).0

stale_presence_example :
    (q : Play) × Steps 9 (record { manager = open_room; closing = false; beats = 1; leavers = 0 }) q
    × Over 9 q
    × (last_of 9 q.manager.coalescer.sent ≡ some (live 3))
stale_presence_example = (stale_presence 9 3 open_room refl).0
