-- ===== src/Ingest/Envelope.antt =====
-- `ingestEnvelope` of src/infrastructure/event-ingest.ts and the HTTP route over it. The schema check
-- and SHA-256 are parameters, and so is what `EventRouter.route` does with an event: it returns or
-- throws. The keys of the claims are those of one instance, whose prefix they share.
use mediasoup_socket_io_audi.Prelude.{
  ℕ, ◌+◌, ◌-◌, List, ◌∷◌, Option, none, some, Bool, true, false, leb, ◌==◌, if◌then◌else◌, not,
}
use mediasoup_socket_io_audi.Prelude.Redis.{Link}
use mediasoup_socket_io_audi.Ingest.Dedup.{Claims, claim_event, release_claim, event_fingerprint}

-- MAX_CONCURRENT_EVENTS and DEDUP_TTL_SECONDS.
abbrev pub max_concurrent_events : ℕ
max_concurrent_events = 100

abbrev pub dedup_ttl_seconds : ℕ
dedup_ttl_seconds = 600

-- ABSENT_CORRELATION_ID: the text "unknown".
abbrev pub absent_correlation_id : ℕ
absent_correlation_id = 0

-- The event after validation; texts are numbers. An empty correlation id is `none`.
pub record LaravelEvent : Type 0 where
  pub event : ℕ
  pub user_id : Option ℕ
  pub room_id : Option ℕ
  pub payload : ℕ
  pub timestamp : Option ℕ
  pub correlation_id : Option ℕ

pub data Routed : Type 0 where
  returned : (delivered : Bool) (target_count : ℕ) → Routed
  threw : Routed

-- `raised`: the error of the router goes on to the transport.
pub data IngestOutcome : Type 0 where
  invalid capacity duplicate raised : IngestOutcome
  ok : (delivered : Bool) (target_count : ℕ) → IngestOutcome

-- What one run meets: the time, how Redis treats its two calls, and what the router does.
pub record Run : Type 0 where
  pub now : ℕ
  pub claim_link : Link
  pub release_link : Link
  pub routed : Routed

-- The claims, `inFlightEvents`, and the events handed to the router, latest first.
pub record Ingest : Type 0 where
  pub claims : Claims
  pub in_flight : ℕ
  pub routed_events : List LaravelEvent

abbrev pub enter : Ingest → LaravelEvent → Ingest
enter s e = record s { in_flight = s.in_flight + 1; routed_events = e ∷ s.routed_events }

-- `finally`
abbrev pub leave : Ingest → Ingest
leave s = record s { in_flight = s.in_flight - 1 }

-- The claim is handed back, if there is one.
abbrev pub hand_back : Link → Ingest → Option ℕ → Ingest
hand_back link s none = s
hand_back link s (some key) = record s { claims = release_claim link s.claims key }

-- The end of the routing, with the key that was claimed.
abbrev pub settle : Run → Ingest → Option ℕ → Routed → Ingest × IngestOutcome
settle r s key (returned delivered count) = (leave s, ok delivered count)
settle r s key threw = (leave (hand_back r.release_link s key), raised)

unfoldable pub route_event : Run → Ingest → LaravelEvent → Option ℕ → Ingest × IngestOutcome
route_event r s e key = settle r (enter s e) key r.routed

-- The gate: an event with no key is not deduplicated, and a claim that is refused is a duplicate.
unfoldable pub claim_gate : Run → Ingest → Option ℕ → Ingest × Bool
claim_gate r s none = (s, true)
claim_gate r s (some key) =
    let (claims, first) = claim_event r.claim_link s.claims key r.now dedup_ttl_seconds in
    (record s { claims = claims }, first)

module _ {Raw : Type 0} (safe_parse : Raw → Option LaravelEvent) (sha256 : LaravelEvent → ℕ) where
  -- buildDedupKey, and no key where no Redis is configured.
  unfoldable pub dedup_key : Bool → LaravelEvent → Option ℕ
  unfolding event_fingerprint
  dedup_key has_redis e =
      if has_redis
      then event_fingerprint (λ (x : LaravelEvent). x.correlation_id)
          (λ id. id == absent_correlation_id) sha256 e
      else none

  unfoldable pub ingest_event : Bool → Run → Ingest → LaravelEvent → Ingest × IngestOutcome
  ingest_event has_redis r s e =
      if leb max_concurrent_events s.in_flight
      then (s, capacity)
      else (let (s', first) = claim_gate r s (dedup_key has_redis e) in
          if first then route_event r s' e (dedup_key has_redis e) else (s', duplicate))

  -- ingestEnvelope, with no other envelope between its steps.
  unfoldable pub ingest_envelope : Bool → Run → Ingest → Raw → Ingest × IngestOutcome
  ingest_envelope has_redis r s raw = elim (safe_parse raw) [
    | none ↦ (s, invalid)
    | some e ↦ ingest_event has_redis r s e
  ]

-- The answers of POST /api/events: the status code and, for 200, what it reports.
pub data HttpReply : Type 0 where
  gone unauthorized unprocessable unavailable internal_error : HttpReply
  accepted : (is_duplicate delivered : Bool) (target_count : ℕ) → HttpReply

abbrev pub reply_of : IngestOutcome → HttpReply
reply_of invalid = unprocessable
reply_of capacity = unavailable
reply_of duplicate = accepted true false 0
reply_of (ok delivered count) = accepted false delivered count
reply_of raised = internal_error

-- The route: the kill switch, the key of the caller, then the pipeline.
unfoldable pub post_event :
    {Raw : Type 0} (enabled key_matches : Bool)
    → (Ingest → Raw → Ingest × IngestOutcome)
    → Ingest
    → Raw
    → Ingest × HttpReply
post_event enabled key_matches ingest s raw =
    if not enabled
    then (s, gone)
    else (if not key_matches
        then (s, unauthorized)
        else (let (s', outcome) = ingest s raw in (s', reply_of outcome)))
