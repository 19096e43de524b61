-- ===== src/Ingest/Delivery.antt =====
-- How often src/infrastructure/event-ingest.ts hands an event to the router.
use mediasoup_socket_io_audi.Prelude.{
  ℕ, ◌+◌, ◌*◌, ◌<◌, ◌≤◌, ◌≡◌, ◌≢◌, refl, List, [], ◌∷◌, Option, none, some, Bool, true, false,
  if◌then◌else◌, arith, Bool-cases, Option-cases, inl, inr, ◌⊎◌,
}
use mediasoup_socket_io_audi.Prelude.Redis.{answers}
use mediasoup_socket_io_audi.Ingest.Dedup.{is_set, claim_event, release_claim}
use mediasoup_socket_io_audi.Ingest.Envelope.{
  max_concurrent_events, dedup_ttl_seconds, LaravelEvent, Routed, returned, threw, IngestOutcome,
  invalid, capacity, duplicate, raised, ok, Run, Ingest, route_event, claim_gate, dedup_key,
  ingest_event, ingest_envelope,
}

abbrev pub returns : Routed → Bool
returns (returned d n) = true
returns threw = false

abbrev pub is_ok : IngestOutcome → Bool
is_ok (ok d n) = true
is_ok invalid = false
is_ok capacity = false
is_ok duplicate = false
is_ok raised = false

Routed-cases : (o : Routed) → ((d : Bool) × (n : ℕ) × (o ≡ returned d n)) ⊎ (o ≡ threw)
Routed-cases (returned d n) = inl (d, n, refl)
Routed-cases threw = inr refl

-- The outcomes that say the event was handled.
abbrev pub ok_count : List IngestOutcome → ℕ
ok_count [] = 0
ok_count (o ∷ os) = (if is_ok o then 1 else 0) + ok_count os

-- Some run finds a router that returns.
abbrev pub some_returns : List Run → Bool
some_returns [] = false
some_returns (r ∷ rs) = if returns r.routed then true else some_returns rs

-- Redis answers every call, and all runs fall into one TTL from the time `from`.
abbrev pub InTtl : ℕ → List Run → Type 0
InTtl from [] = Unit {0}
InTtl from (r ∷ rs) =
    (r.claim_link ≡ answers)
    × (r.release_link ≡ answers)
    × (from ≤ r.now)
    × (r.now < from + dedup_ttl_seconds * 1000)
    × InTtl from rs

is_set_later :
    (from now : ℕ) (o : Option ℕ) → is_set from o ≡ false → from ≤ now → is_set now o ≡ false
is_set_later from now none e le = refl
is_set_later from now (some d) e le = ground arith

module _ {Raw : Type 0} (safe_parse : Raw → Option LaravelEvent) (sha256 : LaravelEvent → ℕ) where
  -- Every outcome leaves the count of events in flight as it was; an event that is shed or invalid
  -- leaves all as it was, so that its claim is free for the sender's retry, a duplicate is not routed,
  -- and every other event is handed to the router once.
  pub ingest_envelope_lem :
      (has_redis : Bool) (r : Run) (s : Ingest) (raw : Raw)
      → let (t, o) = ingest_envelope safe_parse sha256 has_redis r s raw in
        (t.in_flight ≡ s.in_flight)
        × (o ≡ invalid → (t ≡ s) × (safe_parse raw ≡ none))
        × (o ≡ capacity → (t ≡ s) × (max_concurrent_events ≤ s.in_flight))
        × (o ≡ duplicate → t.routed_events ≡ s.routed_events)
        × ((e : LaravelEvent)
            → safe_parse raw ≡ some e
            → o ≢ capacity
            → o ≢ duplicate
            → t.routed_events ≡ e ∷ s.routed_events)
  unfolding ingest_envelope ingest_event route_event claim_gate
  ingest_envelope_lem has_redis r s raw = elim (Option-cases (safe_parse raw)) [
    | inl bad ↦ ground arith
    | inr (e, good) ↦ elim (Option-cases (dedup_key safe_parse sha256 has_redis e)) [
      | inl unkeyed ↦ ground arith
      | inr (key, keyed) ↦
          elim (Bool-cases (claim_event r.claim_link s.claims key r.now dedup_ttl_seconds).1) [
            | inl first ↦ ground arith
            | inr again ↦ ground arith
          ]
    ]
  ]

  -- The same event again and again, each time with no other envelope between.
  unfoldable pub deliver_all : Ingest → LaravelEvent → List Run → Ingest × List IngestOutcome
  deliver_all s e [] = (s, [])
  deliver_all s e (r ∷ rs) =
      let (s', o) = ingest_event safe_parse sha256 true r s e in
      let (s'', os) = deliver_all s' e rs in (s'', o ∷ os)

  -- After the event has been handled nothing more comes of it.
  settled :
      (s : Ingest) (e : LaravelEvent) (key from d : ℕ) (rs : List Run)
      → dedup_key safe_parse sha256 true e ≡ some key
      → s.claims key ≡ some d
      → from + dedup_ttl_seconds * 1000 ≤ d
      → InTtl from rs
      → (ok_count (deliver_all s e rs).1 ≡ 0)
        × ((deliver_all s e rs).0.routed_events ≡ s.routed_events)
  unfolding deliver_all ingest_event claim_gate claim_event
  settled s e key from d [] k c le t = (refl, refl)
  settled s e key from d (r ∷ rs) k c le (a, b, lo, hi, t) =
      ground (arith, settled s e key from d rs k c le t)

  first_run :
      (s : Ingest) (e : LaravelEvent) (key : ℕ) (r : Run)
      → dedup_key safe_parse sha256 true e ≡ some key
      → is_set r.now (s.claims key) ≡ false
      → r.claim_link ≡ answers
      → r.release_link ≡ answers
      → s.in_flight < max_concurrent_events
      → let (t, o) = ingest_event safe_parse sha256 true r s e in
        (t.in_flight ≡ s.in_flight)
        × (is_ok o ≡ returns r.routed)
        × (t.claims key
            ≡ (if returns r.routed then some (r.now + dedup_ttl_seconds * 1000) else none))
  unfolding ingest_event claim_gate claim_event route_event release_claim
  first_run s e key r k free a b lt = elim (Routed-cases r.routed) [
    | inl (d, n, e) ↦ ground arith
    | inr e ↦ ground arith
  ]

  -- An event that is sent again and again within the TTL of its claim, as at-least-once transports do,
  -- while Redis answers and the capacity is free, is handled exactly once if the router ever returns,
  -- and never if it always throws: a throw hands the claim back, and a return keeps it.
  pub deliver_all-once :
      (s : Ingest) (e : LaravelEvent) (key from : ℕ) (rs : List Run)
      → dedup_key safe_parse sha256 true e ≡ some key
      → is_set from (s.claims key) ≡ false
      → InTtl from rs
      → s.in_flight < max_concurrent_events
      → ok_count (deliver_all s e rs).1 ≡ (if some_returns rs then 1 else 0)
  unfolding deliver_all
  deliver_all-once s e key from [] k free t lt = refl
  deliver_all-once s e key from (r ∷ rs) k free (a, b, lo, hi, t) lt =
      let (fl, okay, cl) =
        first_run s e key r k (is_set_later from r.now (s.claims key) free lo) a b lt in
      let s' : Ingest = (ingest_event safe_parse sha256 true r s e).0 in
      elim (Bool-cases (returns r.routed)) [
        | inl done ↦ ground (arith, settled s' e key from (r.now + dedup_ttl_seconds * 1000) rs k)
        | inr failed ↦ ground (arith, deliver_all-once s' e key from rs k)
      ]
