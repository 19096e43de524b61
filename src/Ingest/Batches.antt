-- ===== src/Ingest/Batches.antt =====
-- What src/infrastructure/queue-consumer.ts deletes, and in which order it works.
use mediasoup_socket_io_audi.Prelude.{
  ℕ, ◌≡◌, refl, List, [], ◌∷◌, ◌++◌, none, some, Bool, true, false, if◌then◌else◌, arith,
  Bool-cases, Option-cases, inl, inr, ap,
}
use mediasoup_socket_io_audi.Prelude.Redis.{Link, answers}
use mediasoup_socket_io_audi.Ingest.Envelope.{
  Run, Ingest, IngestOutcome, invalid, capacity, duplicate, raised, ok,
}
use mediasoup_socket_io_audi.Ingest.Queue.{
  Message, Turn, process_message, process_batch, handle_outcome,
}

-- Routed, or routed before.
abbrev pub is_terminal : IngestOutcome → Bool
is_terminal (ok d n) = true
is_terminal duplicate = true
is_terminal invalid = false
is_terminal capacity = false
is_terminal raised = false

abbrev pub is_capacity : IngestOutcome → Bool
is_capacity capacity = true
is_capacity (ok d n) = false
is_capacity duplicate = false
is_capacity invalid = false
is_capacity raised = false

abbrev pub terminal_ids : List (ℕ × IngestOutcome) → List ℕ
terminal_ids [] = []
terminal_ids ((id, o) ∷ os) = if is_terminal o then id ∷ terminal_ids os else terminal_ids os

abbrev pub outcome_ids : List (ℕ × IngestOutcome) → List ℕ
outcome_ids [] = []
outcome_ids ((id, o) ∷ os) = id ∷ outcome_ids os

-- The last outcome is the only one that may be `capacity`, and is where the batch backs off.
abbrev pub EndsAtCapacity : Bool → List (ℕ × IngestOutcome) → Type 0
EndsAtCapacity backs_off [] = backs_off ≡ false
EndsAtCapacity backs_off ((id, o) ∷ []) = is_capacity o ≡ backs_off
EndsAtCapacity backs_off ((id, o) ∷ o' ∷ os) =
    (is_capacity o ≡ false) × EndsAtCapacity backs_off (o' ∷ os)

ends_cons :
    (b : Bool) (id : ℕ) (o : IngestOutcome) (os : List (ℕ × IngestOutcome))
    → is_capacity o ≡ false
    → EndsAtCapacity b os
    → EndsAtCapacity b ((id, o) ∷ os)
ends_cons b id o [] e h = ground arith
ends_cons b id o (o' ∷ os) e h = (e, h)

module _ {Raw : Type 0} where
  -- The messages whose body is JSON.
  abbrev pub json_ids : List (Message Raw × Turn) → List ℕ
  json_ids [] = []
  json_ids ((m, t) ∷ ms) = elim m.body [
    | none ↦ json_ids ms
    | some raw ↦ m.message_id ∷ json_ids ms
  ]

  abbrev pub Deletes : List (Message Raw × Turn) → Type 0
  Deletes [] = Unit {0}
  Deletes ((m, t) ∷ ms) = (t.delete_link ≡ answers) × Deletes ms

  abbrev pub GoesOn : List (Message Raw × Turn) → Type 0
  GoesOn [] = Unit {0}
  GoesOn ((m, t) ∷ ms) = (t.stopping ≡ false) × GoesOn ms

module _ {Raw : Type 0} (ingest_envelope : Run → Ingest → Raw → Ingest × IngestOutcome) where
  step_deleted :
      (link : Link) (id : ℕ) (o : IngestOutcome)
      → link ≡ answers
      → (handle_outcome link id o).1 ≡ (if is_terminal o then id ∷ [] else [])
  step_deleted link id (ok d n) e = ground arith
  step_deleted link id duplicate e = ground arith
  step_deleted link id invalid e = refl
  step_deleted link id capacity e = refl
  step_deleted link id raised e = refl

  step_goes :
      (link : Link) (id : ℕ) (o : IngestOutcome)
      → (handle_outcome link id o).0 ≡ (if is_capacity o then false else true)
  step_goes link id (ok d n) = refl
  step_goes link id duplicate = refl
  step_goes link id invalid = refl
  step_goes link id capacity = refl
  step_goes link id raised = refl

  -- The batch on one message, by what the pipeline makes of it.
  batch_json :
      (s : Ingest) (m : Message Raw) (t : Turn) (ms : List (Message Raw × Turn)) (raw : Raw)
      → m.body ≡ some raw
      → t.stopping ≡ false
      → let (s', o) = ingest_envelope t.run s raw in
        let rest = process_batch ingest_envelope s' ms in
        process_batch ingest_envelope s ((m, t) ∷ ms) ≡ (
          if is_capacity o
          then record {
            ingest = s';
            deleted = (handle_outcome t.delete_link m.message_id o).1;
            outcomes = (m.message_id, o) ∷ [];
            backs_off = true;
          }
          else record {
            ingest = rest.ingest;
            deleted = (handle_outcome t.delete_link m.message_id o).1 ++ rest.deleted;
            outcomes = (m.message_id, o) ∷ rest.outcomes;
            backs_off = rest.backs_off;
          })
  unfolding process_batch process_message
  batch_json s m t ms raw e go =
      ground (arith, step_goes t.delete_link m.message_id (ingest_envelope t.run s raw).1)

  batch_stopped :
      (s : Ingest) (m : Message Raw) (t : Turn) (ms : List (Message Raw × Turn))
      → t.stopping ≡ true
      → process_batch ingest_envelope s ((m, t) ∷ ms)
        ≡ record { ingest = s; deleted = []; outcomes = []; backs_off = false }
  unfolding process_batch
  batch_stopped s m t ms stop = ground arith

  batch_text :
      (s : Ingest) (m : Message Raw) (t : Turn) (ms : List (Message Raw × Turn))
      → m.body ≡ none
      → t.stopping ≡ false
      → process_batch ingest_envelope s ((m, t) ∷ ms) ≡ process_batch ingest_envelope s ms
  unfolding process_batch process_message
  batch_text s m t ms e go = ground arith

  -- While every DeleteMessage is answered, the consumer deletes exactly the messages whose outcome is
  -- terminal; it gives the pipeline the messages whose body is JSON in the order of the batch, each once
  -- and none left out before the one where it ends; and it ends early only at an outcome `capacity`,
  -- after which it gives the pipeline nothing, or when it is told to stop.
  pub process_batch_lem :
      (s : Ingest) (ms : List (Message Raw × Turn))
      → Deletes ms
      → let r = process_batch ingest_envelope s ms in
        (r.deleted ≡ terminal_ids r.outcomes)
        × EndsAtCapacity r.backs_off r.outcomes
        × ((rest : List ℕ) × (outcome_ids r.outcomes ++ rest ≡ json_ids ms)
            × (r.backs_off ≡ false → GoesOn ms → rest ≡ []))
  process_batch_lem s [] d = unfold process_batch in (refl, refl, ([], refl, λ e g. refl))
  process_batch_lem s ((m, t) ∷ ms) (d, ds) = elim (Bool-cases t.stopping) [
    | inl stop ↦
        rw (batch_stopped s m t ms stop)
          (refl, refl, (json_ids ((m, t) ∷ ms), refl, λ e g. absurd (ground arith)))
    | inr go ↦ elim (Option-cases m.body) [
      | inl no_json ↦
          let (del, ends, (rest, pre, all)) = process_batch_lem s ms ds in
          rw (batch_text s m t ms no_json go, no_json) (del, ends, (rest, pre, λ e g. all e g.1))
      | inr (raw, json) ↦
          let o : IngestOutcome = (ingest_envelope t.run s raw).1 in
          let s' : Ingest = (ingest_envelope t.run s raw).0 in
          let (del, ends, (rest, pre, all)) = process_batch_lem s' ms ds in
          rw (batch_json s m t ms raw json go, json)
            (elim (Bool-cases (is_capacity o)) [
              | inl full ↦
                  rw full (
                    step_deleted t.delete_link m.message_id o d,
                    full,
                    (json_ids ms, refl, λ e. cc),
                  )
              | inr free ↦ rw free (
                ground (arith, step_deleted t.delete_link m.message_id o d),
                ends_cons _ m.message_id o _ free ends,
                (rest, ap (◌∷◌ m.message_id) pre, λ e g. all e g.1),
              )
            ])
    ]
  ]
