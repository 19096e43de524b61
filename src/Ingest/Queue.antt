-- ===== src/Ingest/Queue.antt =====
-- `QueueConsumer` of src/infrastructure/queue-consumer.ts: what it does with a received batch. SQS
-- itself, which delivers again what is not deleted, is not modelled; the pipeline is a parameter.
use mediasoup_socket_io_audi.Prelude.{
  ℕ, List, [], ◌∷◌, ◌++◌, Option, none, some, Bool, true, false, if◌then◌else◌,
}
use mediasoup_socket_io_audi.Prelude.Redis.{Link, answers, fails, answer_lost}
use mediasoup_socket_io_audi.Ingest.Envelope.{
  Run, Ingest, IngestOutcome, invalid, capacity, duplicate, raised, ok,
}

-- A message; its body is `none` where it is no JSON.
pub record Message (Raw : Type 0) : Type 0 where
  pub message_id : ℕ
  pub body : Option Raw

-- What one message meets: whether `stop` has been called before it, the run of the pipeline, and how
-- SQS treats its DeleteMessage.
pub record Turn : Type 0 where
  pub stopping : Bool
  pub run : Run
  pub delete_link : Link

-- DeleteMessage, whose failure is swallowed: the ids that SQS has deleted.
abbrev pub delete_message : Link → ℕ → List ℕ
delete_message answers id = id ∷ []
delete_message fails id = []
delete_message answer_lost id = id ∷ []

-- Whether the batch goes on, and what is deleted.
abbrev pub handle_outcome : Link → ℕ → IngestOutcome → Bool × List ℕ
handle_outcome link id (ok delivered count) = (true, delete_message link id)
handle_outcome link id duplicate = (true, delete_message link id)
handle_outcome link id invalid = (true, [])
handle_outcome link id capacity = (false, [])
handle_outcome link id raised = (true, [])

-- What a batch came to: the pipeline's state, the messages deleted, the outcome of each message that
-- the pipeline was given, in order, and whether the batch was left because of the capacity.
pub record BatchEnd : Type 0 where
  pub ingest : Ingest
  pub deleted : List ℕ
  pub outcomes : List (ℕ × IngestOutcome)
  pub backs_off : Bool

module _ {Raw : Type 0} (ingest_envelope : Run → Ingest → Raw → Ingest × IngestOutcome) where
  -- processMessage: the outcome is `none` where the body is no JSON.
  unfoldable pub process_message :
      Turn → Ingest → Message Raw → Ingest × Option IngestOutcome × (Bool × List ℕ)
  process_message t s m = elim m.body [
    | none ↦ (s, none, (true, []))
    | some raw ↦
        (let (s', outcome) = ingest_envelope t.run s raw in
          (s', some outcome, handle_outcome t.delete_link m.message_id outcome))
  ]

  abbrev pub stopped : Ingest → BatchEnd
  stopped s = record { ingest = s; deleted = []; outcomes = []; backs_off = false }

  abbrev pub note_outcome :
      ℕ → Option IngestOutcome → List (ℕ × IngestOutcome) → List (ℕ × IngestOutcome)
  note_outcome id none os = os
  note_outcome id (some o) os = (id, o) ∷ os

  -- The loop over the messages of a batch.
  unfoldable pub process_batch : Ingest → List (Message Raw × Turn) → BatchEnd
  process_batch s [] = stopped s
  process_batch s ((m, t) ∷ ms) =
      let r = process_message t s m in
      let rest = process_batch r.0 ms in
      if t.stopping
      then stopped s
      else (if r.2.0
          then record {
            ingest = rest.ingest;
            deleted = r.2.1 ++ rest.deleted;
            outcomes = note_outcome m.message_id r.1 rest.outcomes;
            backs_off = rest.backs_off;
          }
          else record {
            ingest = r.0;
            deleted = r.2.1;
            outcomes = note_outcome m.message_id r.1 [];
            backs_off = true;
          })
