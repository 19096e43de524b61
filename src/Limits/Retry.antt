-- ===== src/Limits/Retry.antt =====
-- `retryAsync` of src/shared/retry.ts.
use mediasoup_socket_io_audi.Prelude.{
  ℕ, zero, suc, ◌+◌, ◌*◌, ◌≤◌, ◌≡◌, refl, List, [], ◌∷◌, Option, none, some, Bool, if◌then◌else◌,
  arith,
}

-- What one attempt does.
pub data Attempt (A E : Type 0) : Type 0 where
  resolved : A → Attempt A E
  rejected : E → Attempt A E

-- What the call comes to; without attempts it resolves with `undefined`.
pub data Outcome (A E : Type 0) : Type 0 where
  resolves : A → Outcome A E
  rejects : E → Outcome A E
  undefined : Outcome A E

-- The outcome, how many attempts were made, and the waits between them, first first.
pub record Retried (A E : Type 0) : Type 0 where
  pub outcome : Outcome A E
  pub made : ℕ
  pub waits : List ℕ

module _ {A E : Type 0} (accept : A → Bool) (should_retry : E → Bool) where
  -- Whether an attempt ends the loop.
  abbrev pub stops : Attempt A E → Option (Outcome A E)
  stops (resolved x) = if accept x then some (resolves x) else none
  stops (rejected e) = if should_retry e then none else some (rejects e)

  -- lastError and lastResult after an attempt that does not.
  abbrev pub last_error : Attempt A E → Option E → Option E
  last_error (resolved x) e = e
  last_error (rejected e') e = some e'

  abbrev pub last_result : Attempt A E → Option A → Option A
  last_result (resolved x) a = some x
  last_result (rejected e) a = a

  abbrev pub give_up : Option E → Option A → Outcome A E
  give_up (some e) a = rejects e
  give_up none (some x) = resolves x
  give_up none none = undefined

  abbrev pub ended : Outcome A E → ℕ → Retried A E
  ended o n = record { outcome = o; made = n; waits = [] }

  -- One attempt more, and a wait after it if another one follows.
  abbrev pub one_more : ℕ → ℕ → Retried A E → Retried A E
  one_more zero delay r = record r { made = suc r.made }
  one_more (suc left) delay r = record r { made = suc r.made; waits = delay ∷ r.waits }

  abbrev pub after_attempt : ℕ → ℕ → Option (Outcome A E) → Retried A E → Retried A E
  after_attempt left delay (some o) rest = ended o 1
  after_attempt left delay none rest = one_more left delay rest

  -- The loop from an attempt on, with how many are left, the wait that follows, and what is known.
  unfoldable pub retry_loop : (ℕ → Attempt A E) → ℕ → ℕ → ℕ → Option E → Option A → Retried A E
  retry_loop fn zero attempt delay e a = ended (give_up e a) 0
  retry_loop fn (suc left) attempt delay e a =
      let rest =
        retry_loop fn left (attempt + 1) (delay * 2) (last_error (fn attempt) e)
          (last_result (fn attempt) a) in
      after_attempt left delay (stops (fn attempt)) rest

  -- retryAsync
  unfoldable pub retry_async : (ℕ → Attempt A E) → ℕ → ℕ → Retried A E
  retry_async fn attempts base_delay_ms = retry_loop fn attempts 1 base_delay_ms none none

  abbrev pub stop_or :
      ℕ → Option (Outcome A E) → Option (ℕ × Outcome A E) → Option (ℕ × Outcome A E)
  stop_or attempt (some o) later = some (attempt, o)
  stop_or attempt none later = later

  -- The first attempt that ends the loop, of `n` from `attempt` on, and its outcome.
  abbrev pub first_stop : (ℕ → Attempt A E) → ℕ → ℕ → Option (ℕ × Outcome A E)
  first_stop fn attempt zero = none
  first_stop fn attempt (suc n) =
      stop_or attempt (stops (fn attempt)) (first_stop fn (attempt + 1) n)

  -- The errors of `n` attempts from one on, latest first, and their results.
  abbrev pub latest_error : (ℕ → Attempt A E) → ℕ → ℕ → Option E → Option E
  latest_error fn attempt zero e = e
  latest_error fn attempt (suc n) e = latest_error fn (attempt + 1) n (last_error (fn attempt) e)

  abbrev pub latest_result : (ℕ → Attempt A E) → ℕ → ℕ → Option A → Option A
  latest_result fn attempt zero a = a
  latest_result fn attempt (suc n) a = latest_result fn (attempt + 1) n (last_result (fn attempt) a)

  abbrev pub total : List ℕ → ℕ
  total [] = 0
  total (x ∷ xs) = x + total xs

  -- The base doubled once for each attempt after the first.
  abbrev pub doubled : ℕ → ℕ → ℕ
  doubled base zero = base
  doubled base (suc zero) = base
  doubled base (suc (suc n)) = doubled (base * 2) (suc n)

  -- What the loop is to come to.
  abbrev pub Comes : ℕ → ℕ → Option (ℕ × Outcome A E) → Outcome A E → Retried A E → Type 0
  Comes attempt left (some (k, o)) last r = (attempt + r.made ≡ k + 1) × (r.outcome ≡ o)
  Comes attempt left none last r = (r.made ≡ left) × (r.outcome ≡ last)

  Comes-next :
      (attempt left delay : ℕ) (stop : Option (ℕ × Outcome A E)) (last : Outcome A E)
      (r : Retried A E)
      → Comes (attempt + 1) left stop last r
      → Comes attempt (suc left) stop last (one_more left delay r)
  Comes-next attempt zero delay none last r (m, o) = (omega arith, o)
  Comes-next attempt (suc left) delay none last r (m, o) = (omega arith, o)
  Comes-next attempt zero delay (some (k, x)) last r (m, o) = (omega arith, o)
  Comes-next attempt (suc left) delay (some (k, x)) last r (m, o) = (omega arith, o)

  made_more :
      (left delay : ℕ) (r : Retried A E) → r.made ≤ left → (one_more left delay r).made ≤ suc left
  made_more zero delay r m = omega arith
  made_more (suc left) delay r m = omega arith

  waits_more :
      (left delay : ℕ) (r : Retried A E)
      → total r.waits + delay * 2 ≤ doubled (delay * 2) left
      → total (one_more left delay r).waits + delay ≤ doubled delay (suc left)
  waits_more zero delay r w = omega arith
  waits_more (suc left) delay r w = omega arith

  doubled_grows : (delay left : ℕ) → 0 + delay ≤ doubled delay (suc left)
  doubled_grows delay zero = omega arith
  doubled_grows delay (suc left) = omega (arith, doubled_grows (delay * 2) left)

  attempt_lem :
      (attempt left delay : ℕ) (s : Option (Outcome A E)) (stop : Option (ℕ × Outcome A E))
      (last : Outcome A E) (rest : Retried A E)
      → Comes (attempt + 1) left stop last rest
        × (rest.made ≤ left)
        × (total rest.waits + delay * 2 ≤ doubled (delay * 2) left)
      → let r = after_attempt left delay s rest in
        Comes attempt (suc left) (stop_or attempt s stop) last r
        × (r.made ≤ suc left)
        × (total r.waits + delay ≤ doubled delay (suc left))
  attempt_lem attempt left delay (some o) stop last rest h =
      ((refl, refl), omega arith, doubled_grows delay left)
  attempt_lem attempt left delay none stop last rest (c, m, w) = (
    Comes-next attempt left delay stop last rest c,
    made_more left delay rest m,
    waits_more left delay rest w,
  )

  retry_loop_lem :
      (fn : ℕ → Attempt A E) (left attempt delay : ℕ) (e : Option E) (a : Option A)
      → let r = retry_loop fn left attempt delay e a in
        Comes attempt left
          (first_stop fn attempt left)
          (give_up (latest_error fn attempt left e) (latest_result fn attempt left a))
          r
        × (r.made ≤ left)
        × (total r.waits + delay ≤ doubled delay left)
  unfolding retry_loop
  retry_loop_lem fn zero attempt delay e a = ((refl, refl), omega arith, omega arith)
  retry_loop_lem fn (suc left) attempt delay e a =
      attempt_lem attempt left delay (stops (fn attempt)) (first_stop fn (attempt + 1) left)
        (give_up (latest_error fn (attempt + 1) left (last_error (fn attempt) e))
          (latest_result fn (attempt + 1) left (last_result (fn attempt) a)))
        (retry_loop fn left (attempt + 1) (delay * 2) (last_error (fn attempt) e)
          (last_result (fn attempt) a))
        (retry_loop_lem fn left (attempt + 1) (delay * 2) (last_error (fn attempt) e)
          (last_result (fn attempt) a))

  -- At most `attempts` attempts are made, and the waits together with the base delay are at most the
  -- base delay doubled for every attempt after the first. The first attempt that resolves with what is
  -- accepted, or rejects with what is not to be retried, is the last and decides the outcome; if there
  -- is none, all are made, and the outcome is the last error, or the last result if there was no error.
  pub retry_async_lem :
      (fn : ℕ → Attempt A E) (attempts base_delay_ms : ℕ)
      → let r = retry_async fn attempts base_delay_ms in
        Comes 1 attempts
          (first_stop fn 1 attempts)
          (give_up (latest_error fn 1 attempts none) (latest_result fn 1 attempts none))
          r
        × (r.made ≤ attempts)
        × (total r.waits + base_delay_ms ≤ doubled base_delay_ms attempts)
  unfolding retry_async
  retry_async_lem fn attempts base_delay_ms = retry_loop_lem fn attempts 1 base_delay_ms none none
