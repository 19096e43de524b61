-- ===== src/Limits/Breaker.antt =====
-- `createRejectionBreaker` of src/infrastructure/rejection-breaker.ts.
use mediasoup_socket_io_audi.Prelude.{
  ℕ, ◌+◌, ◌≤◌, ◌≡◌, refl, List, [], ◌∷◌, ◌++◌, Bool, true, false, ltb, leb, length, not, ◌&&◌,
  if◌then◌else◌, arith, Bool-cases, inl, inr,
}

-- What isTransientRedisRejection looks at, beside whether the value is an Error.
pub data Rejection : Type 0 where
  not_an_error max_retries command_timed_out connection_closed another : Rejection

abbrev pub is_transient_redis_rejection : Rejection → Bool
is_transient_redis_rejection not_an_error = false
is_transient_redis_rejection max_retries = true
is_transient_redis_rejection command_timed_out = true
is_transient_redis_rejection connection_closed = true
is_transient_redis_rejection another = false

pub data RejectionAction : Type 0 where
  crash count redis_transient : RejectionAction

-- The loop that shifts the timestamps that are too old off the front.
unfoldable pub shift_old : ℕ → ℕ → List ℕ → List ℕ
shift_old window_ms now [] = []
shift_old window_ms now (t ∷ ts) =
    let rest = shift_old window_ms now ts in if ltb (t + window_ms) now then rest else t ∷ ts

-- record, with the timestamps, oldest first; the result is the verdict's action and count.
unfoldable pub record_rejection : ℕ → ℕ → List ℕ → Rejection → ℕ → List ℕ × RejectionAction × ℕ
record_rejection threshold window_ms ts err now =
    let kept = shift_old window_ms now (ts ++ now ∷ []) in
    if is_transient_redis_rejection err
    then (ts, redis_transient, length ts)
    else (kept, if leb threshold (length kept) then crash else count, length kept)

-- Every rejection so far, latest last, and the timestamps that remain.
unfoldable pub record_all : ℕ → ℕ → List ℕ → List (Rejection × ℕ) → List ℕ
record_all threshold window_ms ts [] = ts
record_all threshold window_ms ts ((err, now) ∷ rs) =
    record_all threshold window_ms (record_rejection threshold window_ms ts err now).0 rs

-- The rejections that count and are no older than the window at `now`.
abbrev pub counted : ℕ → ℕ → List (Rejection × ℕ) → ℕ
counted window_ms now [] = 0
counted window_ms now ((err, t) ∷ rs) =
    (if not (is_transient_redis_rejection err) && leb now (t + window_ms) then 1 else 0)
    + counted window_ms now rs

-- The times do not run backwards, and end by `last`.
abbrev pub Ordered : ℕ → List (Rejection × ℕ) → ℕ → Type 0
Ordered from [] last = from ≤ last
Ordered from ((err, t) ∷ rs) last = (from ≤ t) × Ordered t rs last

-- The same of times alone.
abbrev Sorted : ℕ → List ℕ → ℕ → Type 0
Sorted from [] last = from ≤ last
Sorted from (t ∷ ts) last = (from ≤ t) × Sorted t ts last

abbrev recent : ℕ → ℕ → List ℕ → ℕ
recent window_ms now [] = 0
recent window_ms now (t ∷ ts) = (if leb now (t + window_ms) then 1 else 0) + recent window_ms now ts

all_recent :
    (window_ms now from last : ℕ) (ts : List ℕ)
    → Sorted from ts last
    → now ≤ from + window_ms
    → recent window_ms now ts ≡ length ts
all_recent window_ms now from last [] s le = refl
all_recent window_ms now from last (t ∷ ts) (lo, s) le =
    ground (arith, all_recent window_ms now t last ts s)

-- What the loop leaves of sorted times are the recent ones.
length-shift_old :
    (window_ms now from last : ℕ) (ts : List ℕ)
    → Sorted from ts last
    → length (shift_old window_ms now ts) ≡ recent window_ms now ts
unfolding shift_old
length-shift_old window_ms now from last [] s = refl
length-shift_old window_ms now from last (t ∷ ts) (lo, s) =
    ground (arith, length-shift_old window_ms now t last ts s, all_recent window_ms now t last ts s)

-- A later look at them finds the same.
recent-shift_old :
    (window_ms now later : ℕ) (ts : List ℕ)
    → now ≤ later
    → recent window_ms later (shift_old window_ms now ts) ≡ recent window_ms later ts
unfolding shift_old
recent-shift_old window_ms now later [] le = refl
recent-shift_old window_ms now later (t ∷ ts) le =
    ground (arith, recent-shift_old window_ms now later ts le)

recent-++ :
    (window_ms now : ℕ) (a b : List ℕ)
    → recent window_ms now (a ++ b) ≡ recent window_ms now a + recent window_ms now b
recent-++ window_ms now [] b = omega arith
recent-++ window_ms now (t ∷ a) b = ground (arith, recent-++ window_ms now a b)

Sorted-append :
    (from last now : ℕ) (ts : List ℕ)
    → Sorted from ts last
    → last ≤ now
    → Sorted from (ts ++ now ∷ []) now
Sorted-append from last now [] s le = (omega arith, omega arith)
Sorted-append from last now (t ∷ ts) (lo, s) le = (lo, Sorted-append t last now ts s le)

Sorted-from :
    (from from' last : ℕ) (ts : List ℕ) → Sorted from ts last → from' ≤ from → Sorted from' ts last
Sorted-from from from' last [] s le = omega arith
Sorted-from from from' last (t ∷ ts) (lo, s) le = (omega arith, s)

Sorted-last :
    (from last later : ℕ) (ts : List ℕ) → Sorted from ts last → last ≤ later → Sorted from ts later
Sorted-last from last later [] s le = omega arith
Sorted-last from last later (t ∷ ts) (lo, s) le = (lo, Sorted-last t last later ts s le)

shift_old-Sorted :
    (window_ms now from last : ℕ) (ts : List ℕ)
    → Sorted from ts last
    → Sorted from (shift_old window_ms now ts) last
unfolding shift_old
shift_old-Sorted window_ms now from last [] s = s
shift_old-Sorted window_ms now from last (t ∷ ts) (lo, s) =
    elim (Bool-cases (ltb (t + window_ms) now)) [
      | inl old ↦ rw old (
          Sorted-from t from last (shift_old window_ms now ts)
            (shift_old-Sorted window_ms now t last ts s) lo)
      | inr new ↦ rw new (lo, s)
    ]

last_after : (from last : ℕ) (rs : List (Rejection × ℕ)) → Ordered from rs last → from ≤ last
last_after from last [] o = o
last_after from last ((err, t) ∷ rs) (lo, o) = omega (arith, last_after t last rs o)

record_step :
    (threshold window_ms from now : ℕ) (ts : List ℕ) (err : Rejection)
    → Sorted 0 ts from
    → from ≤ now
    → let ts' = (record_rejection threshold window_ms ts err now).0 in
      Sorted 0 ts' now
      × ((later : ℕ)
          → now ≤ later
          → recent window_ms later ts'
            ≡ recent window_ms later ts
              + (if not (is_transient_redis_rejection err) && leb later (now + window_ms)
                  then 1
                  else 0))
unfolding record_rejection
record_step threshold window_ms from now ts err s le =
    elim (Bool-cases (is_transient_redis_rejection err)) [
      | inl transient ↦ rw transient (Sorted-last 0 from now ts s le, λ later h. omega arith)
      | inr counts ↦ rw counts (
        shift_old-Sorted window_ms now 0 now (ts ++ now ∷ []) (Sorted-append 0 from now ts s le),
        λ later h. ground (
          arith,
          recent-shift_old window_ms now later (ts ++ now ∷ []),
          recent-++ window_ms later ts (now ∷ []),
        ),
      )
    ]

record_all_lem :
    (threshold window_ms from last : ℕ) (ts : List ℕ) (rs : List (Rejection × ℕ))
    → Sorted 0 ts from
    → Ordered from rs last
    → Sorted 0 (record_all threshold window_ms ts rs) last
      × ((later : ℕ)
          → last ≤ later
          → recent window_ms later (record_all threshold window_ms ts rs)
            ≡ recent window_ms later ts + counted window_ms later rs)
unfolding record_all
record_all_lem threshold window_ms from last ts [] s o =
    (Sorted-last 0 from last ts s o, λ later le. omega arith)
record_all_lem threshold window_ms from last ts ((err, now) ∷ rs) s (lo, o) =
    let ts' : List ℕ = (record_rejection threshold window_ms ts err now).0 in
    let (s', f) = record_step threshold window_ms from now ts err s lo in
    let (s'', g) = record_all_lem threshold window_ms now last ts' rs s' o in
    (s'', λ later le. omega (arith, f later (omega (arith, last_after now last rs o)), g later le))

-- The breaker crashes exactly when the rejections that it counts, those of the window before this one
-- that are not known to be a Redis failover, reach the threshold with it, and its count says how many
-- they are, while the clock does not run backwards.
pub record_rejection_lem :
    (threshold window_ms now : ℕ) (err : Rejection) (rs : List (Rejection × ℕ))
    → is_transient_redis_rejection err ≡ false
    → Ordered 0 rs now
    → let total = counted window_ms now rs + 1 in
      let r = record_rejection threshold window_ms (record_all threshold window_ms [] rs) err now in
      (r.1 ≡ (if leb threshold total then crash else count)) × (r.2 ≡ total)
unfolding record_rejection
record_rejection_lem threshold window_ms now err rs c o =
    let ts : List ℕ = record_all threshold window_ms [] rs in
    let (s, f) = record_all_lem threshold window_ms 0 now [] rs (omega arith) o in
    let e =
      length-shift_old window_ms now 0 now (ts ++ now ∷ [])
        (Sorted-append 0 now now ts s (omega arith)) in
    let g = recent-++ window_ms now ts (now ∷ []) in
    let n : length (shift_old window_ms now (ts ++ now ∷ [])) ≡ counted window_ms now rs + 1 =
      ground (arith, e, g, f now) in
    rw (c, n) (refl, refl)
