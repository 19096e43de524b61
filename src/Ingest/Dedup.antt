-- ===== src/Ingest/Dedup.antt =====
-- The claims of src/infrastructure/event-dedup.ts: SET NX with a TTL, and the keys. The SHA-256 of
-- the canonical text of an event is a parameter.
use mediasoup_socket_io_audi.Prelude.{
  ℕ, ◌+◌, ◌*◌, ◌<◌, ◌≡◌, List, [], ◌∷◌, Option, none, some, Bool, true, false, ltb, ◌==◌,
  if◌then◌else◌, arith,
}
use mediasoup_socket_io_audi.Prelude.Redis.{Link, answers, fails, answer_lost}

-- A claim is a key with the time at which it expires.
abbrev pub Claims : Type 0
Claims = ℕ → Option ℕ

abbrev pub is_set : ℕ → Option ℕ → Bool
is_set now none = false
is_set now (some deadline) = ltb now deadline

abbrev pub claimed : Claims → ℕ → ℕ → Claims
claimed cs key deadline k = if key == k then some deadline else cs k

-- SET key "1" EX ttl NX, and whether the answer is "OK".
abbrev pub set_nx : Claims → ℕ → ℕ → ℕ → Claims × Bool
set_nx cs key now ttl_seconds =
    if is_set now (cs key) then (cs, false) else (claimed cs key (now + ttl_seconds * 1000), true)

-- claimEvent, and claimFanoutEmit, which differs in the key only; both fail open.
unfoldable pub claim_event : Link → Claims → ℕ → ℕ → ℕ → Claims × Bool
claim_event answers cs key now ttl_seconds = set_nx cs key now ttl_seconds
claim_event fails cs key now ttl_seconds = (cs, true)
claim_event answer_lost cs key now ttl_seconds = ((set_nx cs key now ttl_seconds).0, true)

-- releaseClaim: a failure is swallowed.
unfoldable pub release_claim : Link → Claims → ℕ → Claims
release_claim fails cs key k = cs k
release_claim answers cs key k = if key == k then none else cs k
release_claim answer_lost cs key k = if key == k then none else cs k

-- The deliveries of one key that are let through, in order of arrival.
unfoldable pub deliveries : Claims → ℕ → ℕ → List ℕ → List Bool
deliveries cs key ttl [] = []
deliveries cs key ttl (now ∷ times) =
    let (cs', ok) = claim_event answers cs key now ttl in ok ∷ deliveries cs' key ttl times

abbrev AllBefore : ℕ → List ℕ → Type 0
AllBefore deadline [] = Unit {0}
AllBefore deadline (t ∷ ts) = (t < deadline) × AllBefore deadline ts

abbrev AllFalse : List Bool → Type 0
AllFalse [] = Unit {0}
AllFalse (b ∷ bs) = (b ≡ false) × AllFalse bs

deliveries_claimed :
    (cs : Claims) (key ttl deadline : ℕ) (times : List ℕ)
    → cs key ≡ some deadline
    → AllBefore deadline times
    → AllFalse (deliveries cs key ttl times)
unfolding deliveries claim_event
deliveries_claimed cs key ttl deadline [] e b = tt
deliveries_claimed cs key ttl deadline (t ∷ ts) e b =
    ground (arith, deliveries_claimed cs key ttl deadline ts e b.1)

-- Of the deliveries of one event within a TTL exactly the first is let through; once its claim is
-- released, as after a handler's failure, a redelivery is let through again.
pub claim_once :
    (cs : Claims) (key ttl now again : ℕ) (times : List ℕ)
    → is_set now (cs key) ≡ false
    → AllBefore (now + ttl * 1000) times
    → (deliveries cs key ttl (now ∷ times)
        ≡ true ∷ deliveries (claim_event answers cs key now ttl).0 key ttl times)
      × AllFalse (deliveries (claim_event answers cs key now ttl).0 key ttl times)
      × ((claim_event answers
            (release_claim answers (claim_event answers cs key now ttl).0 key)
            key
            again
            ttl).1
          ≡ true)
unfolding deliveries claim_event release_claim
claim_once cs key ttl now again times free b = (
  ground arith,
  deliveries_claimed _ key ttl (now + ttl * 1000) times (ground arith) b,
  ground arith,
)

module _ {Event CorrelationId Text : Type 0} (correlation_id : Event → Option CorrelationId)
    (is_unknown : CorrelationId → Bool) (sha256 : Event → Text) where
  -- eventFingerprint: no fingerprint without a correlation id, or with the id "unknown".
  unfoldable pub event_fingerprint : Event → Option Text
  event_fingerprint e = elim (correlation_id e) [
    | none ↦ none
    | some id ↦ if is_unknown id then none else some (sha256 e)
  ]
