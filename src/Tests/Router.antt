-- ===== src/Tests/Router.antt =====
-- An event for a room of two instances, the first of which cannot emit; a block that arrives after the
-- unblock that follows it; and room settings.
use mediasoup_socket_io_audi.Prelude.{
  ◌≡◌, refl, List, [], ◌∷◌, none, some, Bool, true, false, arith,
}
use mediasoup_socket_io_audi.Prelude.Int.{pos}
use mediasoup_socket_io_audi.Prelude.Redis.{answers}
use mediasoup_socket_io_audi.Ingest.Dedup.{Claims}
use mediasoup_socket_io_audi.Ingest.Envelope.{LaravelEvent}
use mediasoup_socket_io_audi.Ingest.Ordering.{Marker, accept_if_not_older}
use mediasoup_socket_io_audi.Ingest.Versions.{Arrival}
use mediasoup_socket_io_audi.Mode.Controller.{interactive}
use mediasoup_socket_io_audi.Room.State.{RoomState, client, save, get}
use mediasoup_socket_io_audi.Room.Counts.{Change, apply_all}
use mediasoup_socket_io_audi.Router.Route.{Sockets, room_member_removed, emit, determine_target}
use mediasoup_socket_io_audi.Router.Fleet.{Instance, route_all, total_emits, route_all-once}
use mediasoup_socket_io_audi.Router.Mirror.{
  BlockEvent, member_removed, user_unblocked, Mirror, apply_block_events, apply_block_events-latest,
  guard_block_event, write_block_event, apply_block_event, mirrored,
}
use mediasoup_socket_io_audi.Router.Crossing.{write_block_event-crossing}
use mediasoup_socket_io_audi.Router.SeatCount.{
  CountWithin, sync_room_settings, sync_room_settings_lem, apply_room_seat_count, stored_count,
  apply_room_seat_count-apply_all,
}

abbrev event : LaravelEvent
event = record {
  event = 1;
  user_id = none;
  room_id = some 9;
  payload = 0;
  timestamp = none;
  correlation_id = some 5;
}

abbrev sockets : Bool → Sockets
sockets throws = record { of_user = λ u. []; in_room = λ r. 2; all_local = 4; throws = throws }

abbrev instances : List Instance
instances =
    record { io = sockets true; now = 100; claim_link = answers; release_link = answers }
    ∷ record { io = sockets false; now = 200; claim_link = answers; release_link = answers }
    ∷ record { io = sockets false; now = 300; claim_link = answers; release_link = answers }
    ∷ []

abbrev unclaimed : Claims
unclaimed key = none

emits : (b : Bool) → (emit (sockets b) (determine_target event)).1 ≡ 1
unfolding emit determine_target
emits b = refl

route_all-once_example :
    total_emits (route_all room_member_removed event (some 5) unclaimed instances) ≡ 1
route_all-once_example =
    (route_all-once room_member_removed event 5 0 unclaimed instances refl refl (
      refl,
      refl,
      omega arith,
      omega arith,
      emits true,
      (
        refl,
        refl,
        omega arith,
        omega arith,
        emits false,
        (refl, refl, omega arith, omega arith, emits false, tt),
      ),
    )).0

abbrev marker : Marker
marker = record { version = some 10; deadline = 600000 }

abbrev mirror : Mirror
mirror = record { key = some marker; blocks = λ u. none; ejections = 0 }

-- The unblock, of version 30, overtakes the block, of version 20.
abbrev reordered : List (Arrival BlockEvent)
reordered =
    record { at = 100; version = 30; value = user_unblocked }
    ∷ record { at = 200; version = 20; value = member_removed false (some (pos 60)) true }
    ∷ []

apply_block_events-latest_example : (apply_block_events 7 reordered mirror).blocks 7 ≡ none
apply_block_events-latest_example =
    apply_block_events-latest 7 0 10 reordered mirror marker refl refl (omega arith)
      (omega arith, omega arith, (omega arith, omega arith, tt))

abbrev fifteen : RoomState
fifteen = record {
  participant_count = 3;
  seat_count = 15;
  seat_count_source = some client;
  mode = some interactive;
  created_at = 0;
  last_activity_at = 0;
}

within : CountWithin 30 100 (save fifteen 0)
unfolding get save
within s h = ground arith

sync_room_settings_lem_example :
    CountWithin 30 100 (sync_room_settings 30 (some 10) none 100 (none, save fifteen 0)).1
sync_room_settings_lem_example =
    (sync_room_settings_lem 30 100 (some 10) none none (save fifteen 0) within).0

apply_room_seat_count-apply_all_example :
    stored_count 100
      (apply_room_seat_count 10
        (get (save fifteen 50) 50)
        100
        (apply_all (save fifteen 50) ((60, Change.remove) ∷ []))).0
    ≡ some 10
apply_room_seat_count-apply_all_example =
    ((apply_room_seat_count-apply_all 10 50 100 fifteen refl (omega arith)).0 [] [] 60
      (omega arith)).1

-- The unblock, of version 30, is mirrored between the guard and the write of the block, of version 20.
write_block_event-crossing_example :
    (write_block_event answers 7 300 (member_removed true none true) true (
        apply_block_event answers answers 7 200
          (some 30)
          user_unblocked
          (guard_block_event answers 100 (some 20) mirror).0)).blocks
      7
    ≡ mirrored 300 (member_removed true none true)
unfolding accept_if_not_older
write_block_event-crossing_example =
    (write_block_event-crossing 7 100 200 300 20 30 (member_removed true none true) user_unblocked
      mirror (omega arith) (omega arith) refl).1

abbrev one_instance : Bool → Instance
one_instance throws = record {
  io = sockets throws;
  now = 100;
  claim_link = answers;
  release_link = answers;
}
