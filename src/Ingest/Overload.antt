-- ===== src/Ingest/Overload.antt =====
-- Envelopes that overlap in src/infrastructure/event-ingest.ts: between the test of the capacity and
-- the count of an event stands the call of Redis that claims it, during which others are tested.
use mediasoup_socket_io_audi.Prelude.{
  ℕ, zero, suc, ◌+◌, ◌<◌, ◌≤◌, ◌≡◌, refl, Bool, true, false, arith, subst,
}
use mediasoup_socket_io_audi.Ingest.Envelope.{max_concurrent_events}

-- How many envelopes wait for the answer to their claim, and `inFlightEvents`.
pub record Load : Type 0 where
  pub claiming : ℕ
  pub in_flight : ℕ

abbrev pub idle : Load
idle = record { claiming = 0; in_flight = 0 }

-- What happens to an envelope between two waits; a keyed one is claimed in Redis.
pub data Step (s : Load) : Load → Type 0 where
  shed : max_concurrent_events ≤ s.in_flight → Step s s
  ask : s.in_flight < max_concurrent_events → Step s (record s { claiming = s.claiming + 1 })
  admit_unkeyed :
      s.in_flight < max_concurrent_events → Step s (record s { in_flight = s.in_flight + 1 })
  claim_won :
      (n : ℕ) → s.claiming ≡ suc n → Step s (record { claiming = n; in_flight = s.in_flight + 1 })
  claim_refused : (n : ℕ) → s.claiming ≡ suc n → Step s (record s { claiming = n })
  finish : (n : ℕ) → s.in_flight ≡ suc n → Step s (record s { in_flight = n })

pub data Reach : Load → Type 0 where
  start : Reach idle
  next : {s t : Load} → Reach s → Step s t → Reach t

-- The step is not one of an envelope with a key that passes the test.
abbrev pub is_keyless : {s t : Load} → Step s t → Bool
is_keyless (Step.shed h) = true
is_keyless (Step.ask h) = false
is_keyless (Step.admit_unkeyed h) = true
is_keyless (Step.claim_won n h) = true
is_keyless (Step.claim_refused n h) = true
is_keyless (Step.finish n h) = true

-- The loads that the pipeline comes to where no envelope carries a key.
pub data ReachUnkeyed : Load → Type 0 where
  start : ReachUnkeyed idle
  next : {s t : Load} → ReachUnkeyed s → (x : Step s t) → is_keyless x ≡ true → ReachUnkeyed t

asked : (n : ℕ) → Reach (record { claiming = n; in_flight = 0 })
asked zero = Reach.start
asked (suc n) =
    let more : n + 1 ≡ suc n = omega arith in
    rw (← more) (Reach.next (asked n) (Step.ask (omega arith)))

all_won :
    (n k : ℕ)
    → Reach (record { claiming = n; in_flight = k })
    → Reach (record { claiming = 0; in_flight = n + k })
all_won zero k r = let e : zero + k ≡ k = omega arith in rw e r
all_won (suc n) k r =
    let e : suc n + k ≡ n + (k + 1) = omega arith in
    rw e (all_won n (k + 1) (Reach.next r (Step.claim_won n refl)))

abbrev Bounded : Load → Type 0
Bounded s = (s.claiming ≡ 0) × (s.in_flight ≤ max_concurrent_events)

step-Bounded : {s t : Load} (x : Step s t) → is_keyless x ≡ true → Bounded s → Bounded t
step-Bounded (Step.shed h) k b = b
step-Bounded (Step.ask h) k b = absurd (ground arith)
step-Bounded (Step.admit_unkeyed h) k (c, b) = (c, omega arith)
step-Bounded (Step.claim_won n h) k (c, b) = absurd (omega arith)
step-Bounded (Step.claim_refused n h) k (c, b) = absurd (omega arith)
step-Bounded (Step.finish n h) k (c, b) = (c, omega arith)

reach-Bounded : {s : Load} → ReachUnkeyed s → Bounded s
reach-Bounded ReachUnkeyed.start = (refl, omega arith)
reach-Bounded (ReachUnkeyed.next r x k) = step-Bounded x k (reach-Bounded r)

step_full :
    {s t : Load}
    → Step s t
    → max_concurrent_events ≤ s.in_flight
    → t.claiming + t.in_flight ≤ s.claiming + s.in_flight
step_full (Step.shed h) f = omega arith
step_full (Step.ask h) f = absurd (omega arith)
step_full (Step.admit_unkeyed h) f = absurd (omega arith)
step_full (Step.claim_won n h) f = omega arith
step_full (Step.claim_refused n h) f = omega arith
step_full (Step.finish n h) f = omega arith

-- While as many events are routed as the capacity allows, no step lets an envelope in. Still, where
-- events carry a key, the capacity does not bound how many are routed at once: any number of them can
-- be tested before the first is counted. Where none carries a key, it does.
pub capacity_lem :
    ((s t : Load)
      → Step s t
      → max_concurrent_events ≤ s.in_flight
      → t.claiming + t.in_flight ≤ s.claiming + s.in_flight)
    × ((n : ℕ) → Reach (record { claiming = 0; in_flight = n }))
    × ((s : Load) → ReachUnkeyed s → s.in_flight ≤ max_concurrent_events)
capacity_lem = (
  (λ s t x f. step_full x f),
  (λ n.
      let e : n + 0 ≡ n = omega arith in
      subst (λ (k : ℕ). Reach (record { claiming = 0; in_flight = k })) e (all_won n 0 (asked n))),
  λ s r. (reach-Bounded r).1,
)
