-- ===== src/Tests/Delivery.antt =====
-- One event that is delivered three times, whose first routing throws, and a batch of two messages.
use mediasoup_socket_io_audi.Prelude.{
  ℕ, ◌≡◌, refl, List, [], ◌∷◌, Option, none, some, true, false, arith,
}
use mediasoup_socket_io_audi.Prelude.Redis.{answers}
use mediasoup_socket_io_audi.Ingest.Dedup.{event_fingerprint}
use mediasoup_socket_io_audi.Ingest.Envelope.{
  LaravelEvent, Routed, returned, threw, Run, Ingest, IngestOutcome, ok, dedup_key, ingest_envelope,
}
use mediasoup_socket_io_audi.Ingest.Delivery.{
  deliver_all, ok_count, ingest_envelope_lem, deliver_all-once,
}
use mediasoup_socket_io_audi.Ingest.Queue.{Message, Turn, process_batch}
use mediasoup_socket_io_audi.Ingest.Batches.{terminal_ids, process_batch_lem}

abbrev event : LaravelEvent
event = record {
  event = 1;
  user_id = some 7;
  room_id = none;
  payload = 0;
  timestamp = none;
  correlation_id = some 5;
}

abbrev parse : LaravelEvent → Option LaravelEvent
parse e = some e

abbrev digest : LaravelEvent → ℕ
digest e = 77

abbrev at_time : ℕ → Routed → Run
at_time now routed = record {
  now = now;
  claim_link = answers;
  release_link = answers;
  routed = routed;
}

abbrev runs : List Run
runs = at_time 100 threw ∷ at_time 2100 (returned true 1) ∷ at_time 12100 (returned true 1) ∷ []

abbrev start : Ingest
start = record { claims = λ k. none; in_flight = 0; routed_events = [] }

deliver_all-once_example : ok_count (deliver_all parse digest start event runs).1 ≡ 1
unfolding dedup_key event_fingerprint
deliver_all-once_example =
    deliver_all-once parse digest start event 77 0 runs refl refl
      (
        refl,
        refl,
        omega arith,
        omega arith,
        (refl, refl, omega arith, omega arith, (refl, refl, omega arith, omega arith, tt)),
      )
      (omega arith)

ingest_envelope_lem_run :
    (ingest_envelope parse digest true (at_time 100 threw) start event).0.in_flight ≡ 0
ingest_envelope_lem_run = (ingest_envelope_lem parse digest true (at_time 100 threw) start event).0

abbrev pipeline : Run → Ingest → ℕ → (x : Ingest) × IngestOutcome
pipeline r s raw = (s, ok true raw)

abbrev turn : Turn
turn = record { stopping = false; run = at_time 100 threw; delete_link = answers }

abbrev batch : List (Message ℕ × Turn)
batch =
    (record { message_id = 1; body = some 4 }, turn)
    ∷ (record { message_id = 2; body = none }, turn)
    ∷ []

process_batch_lem_example :
    (process_batch pipeline start batch).deleted
    ≡ terminal_ids (process_batch pipeline start batch).outcomes
process_batch_lem_example = (process_batch_lem pipeline start batch (refl, (refl, tt))).0
