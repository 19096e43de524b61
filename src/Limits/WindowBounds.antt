-- ===== src/Limits/WindowBounds.antt =====
-- The bound that src/infrastructure/rateLimiter.ts keeps.
use mediasoup_socket_io_audi.Prelude.{
  ℕ, ◌+◌, ◌*◌, ◌≤◌, ◌<◌, ◌≡◌, refl, List, [], ◌∷◌, Option, none, some, Bool, true, false, ltb, leb,
  ◌&&◌, length, if◌then◌else◌, arith, Bool-cases, inl, inr,
}
use mediasoup_socket_io_audi.Prelude.Redis.{Link, answers, fails, answer_lost}
use mediasoup_socket_io_audi.Limits.Window.{
  Zset, live_scores, zremrange, kept_key, sliding_window, is_allowed,
}

-- The times in a list that are later than `lo`, and those of them that are no later than `hi`.
abbrev pub after : ℕ → List ℕ → ℕ
after lo [] = 0
after lo (x ∷ xs) = (if ltb lo x then 1 else 0) + after lo xs

abbrev pub between : ℕ → ℕ → List ℕ → ℕ
between lo hi [] = 0
between lo hi (x ∷ xs) = (if ltb lo x && leb x hi then 1 else 0) + between lo hi xs

-- Every call has its link and the time, by the clock of Redis too, at which its script runs; the result
-- is the key and the times of the calls that were let through, latest first.
unfoldable pub run_calls : ℕ → ℕ → Option Zset → List ℕ → List (Link × ℕ) → Option Zset × List ℕ
run_calls limit window_seconds z granted [] = (z, granted)
run_calls limit window_seconds z granted ((l, now) ∷ calls) =
    let (z', allowed) = is_allowed false l limit window_seconds now z in
    run_calls limit window_seconds z' (if allowed then now ∷ granted else granted) calls

abbrev pub NotBackwards : ℕ → List (Link × ℕ) → Type 0
NotBackwards from [] = Unit {0}
NotBackwards from ((l, now) ∷ calls) = (from ≤ now) × NotBackwards now calls

-- All members were added a window before the key expires.
abbrev AllBy : ℕ → List ℕ → Type 0
AllBy t [] = Unit {0}
AllBy t (x ∷ xs) = (x ≤ t) × AllBy t xs

abbrev members : Option Zset → List ℕ
members none = []
members (some z) = z.scores

abbrev InTime : ℕ → ℕ → Option Zset → Type 0
InTime window_ms last none = Unit {0}
InTime window_ms last (some z) =
    (t : ℕ) × (z.deadline ≡ t + window_ms) × (t ≤ last) × AllBy t z.scores

-- What still counts of the granted calls is among the members.
abbrev Covers : ℕ → ℕ → Option Zset → List ℕ → Type 0
Covers window_ms last z granted =
    (lo : ℕ) → last ≤ lo + window_ms → after lo granted ≤ after lo (members z)

abbrev Capped : ℕ → ℕ → List ℕ → Type 0
Capped limit window_ms granted = (lo hi : ℕ) → hi ≤ lo + window_ms → between lo hi granted ≤ limit

between-after : (lo hi : ℕ) (xs : List ℕ) → between lo hi xs ≤ after lo xs
between-after lo hi [] = omega arith
between-after lo hi (x ∷ xs) = ground (arith, between-after lo hi xs)

after-length : (lo : ℕ) (xs : List ℕ) → after lo xs ≤ length xs
after-length lo [] = omega arith
after-length lo (x ∷ xs) = ground (arith, after-length lo xs)

after-AllBy : (lo t : ℕ) (xs : List ℕ) → AllBy t xs → t ≤ lo → after lo xs ≡ 0
after-AllBy lo t [] a le = refl
after-AllBy lo t (x ∷ xs) (b, a) le = ground (arith, after-AllBy lo t xs a le)

after-zremrange :
    (lo now window_ms : ℕ) (xs : List ℕ)
    → now ≤ lo + window_ms
    → after lo (zremrange now window_ms xs) ≡ after lo xs
unfolding zremrange
after-zremrange lo now window_ms [] le = refl
after-zremrange lo now window_ms (x ∷ xs) le =
    ground (arith, after-zremrange lo now window_ms xs le)

AllBy-zremrange :
    (t now window_ms : ℕ) (xs : List ℕ) → AllBy t xs → AllBy t (zremrange now window_ms xs)
unfolding zremrange
AllBy-zremrange t now window_ms [] a = tt
AllBy-zremrange t now window_ms (x ∷ xs) (b, a) =
    ground (arith, AllBy-zremrange t now window_ms xs a)

AllBy-later : (t u : ℕ) (xs : List ℕ) → AllBy t xs → t ≤ u → AllBy u xs
AllBy-later t u [] a le = tt
AllBy-later t u (x ∷ xs) (b, a) le = (omega arith, AllBy-later t u xs a le)

-- A key that has expired held nothing that still counts.
after-live_scores :
    (lo now last window_ms : ℕ) (z : Option Zset)
    → InTime window_ms last z
    → now ≤ lo + window_ms
    → after lo (live_scores now z) ≡ after lo (members z)
after-live_scores lo now last window_ms none a le = refl
after-live_scores lo now last window_ms (some z) (t, e, b, a) le =
    ground (arith, after-AllBy lo t z.scores a)

live-AllBy :
    (now last window_ms : ℕ) (z : Option Zset)
    → InTime window_ms last z
    → last ≤ now
    → AllBy now (live_scores now z)
live-AllBy now last window_ms none a le = tt
live-AllBy now last window_ms (some z) (t, e, b, a) le =
    ground (arith, AllBy-later t now z.scores a)

members-kept :
    (now window_ms : ℕ) (z : Option Zset)
    → members (kept_key (zremrange now window_ms (live_scores now z)) z)
      ≡ zremrange now window_ms (live_scores now z)
unfolding zremrange
members-kept now window_ms none = refl
members-kept now window_ms (some z) =
    elim (zremrange now window_ms (live_scores now (some z)))
      as (λ xs. members (kept_key xs (some z)) ≡ xs) [ [] ↦ refl | x ∷ xs ↦ refl ]

some-InTime :
    (window_ms t last : ℕ) (z : Zset) (xs : List ℕ)
    → z.deadline ≡ t + window_ms
    → t ≤ last
    → AllBy t xs
    → InTime window_ms last (kept_key xs (some z))
some-InTime window_ms t last z [] e le a = tt
some-InTime window_ms t last z (x ∷ xs) e le a = (t, e, le, a)

kept-InTime :
    (now last window_ms : ℕ) (z : Option Zset)
    → InTime window_ms last z
    → last ≤ now
    → InTime window_ms now (kept_key (zremrange now window_ms (live_scores now z)) z)
unfolding zremrange
kept-InTime now last window_ms none a le = tt
kept-InTime now last window_ms (some z) (t, e, b, a) le =
    some-InTime window_ms t now z (zremrange now window_ms (live_scores now (some z))) e
      (omega arith) (AllBy-zremrange t now window_ms (live_scores now (some z)) (ground (arith, a)))

-- The script keeps the members in time and covers what was granted before; it grants only if what
-- counts is below the limit.
sliding_window_lem :
    (limit window_ms last now : ℕ) (z : Option Zset) (granted : List ℕ)
    → last ≤ now
    → InTime window_ms last z
    → Covers window_ms last z granted
    → let (z', allowed) = sliding_window now window_ms limit z in
      InTime window_ms now z'
      × Covers window_ms now z' granted
      × (allowed ≡ true
          → Covers window_ms now z' (now ∷ granted)
            × ((lo : ℕ) → now ≤ lo + window_ms → after lo granted < limit))
unfolding sliding_window
sliding_window_lem limit window_ms last now z granted le a c =
    let xs : List ℕ = zremrange now window_ms (live_scores now z) in
    let covered : Covers window_ms now (kept_key xs z) granted =
      (λ lo h. rw (members-kept now window_ms z) (covers lo h)) in
    elim (Bool-cases (ltb (length xs) limit)) [
      | inl room ↦ rw room (
        (
          now,
          refl,
          omega arith,
          (
            omega arith,
            AllBy-zremrange now now window_ms (live_scores now z)
                (live-AllBy now last window_ms z a le),
          ),
        ),
        (λ lo h. ground (arith, covers lo h)),
        (λ h. (
          (λ lo g. ground (arith, covers lo g)),
          (λ lo g.
              let lt : length xs < limit = ground arith in
              omega (arith, covers lo g, after-length lo xs)),
        )),
      )
      | inr full ↦ rw full (kept-InTime now last window_ms z a le, covered, λ h. ground arith)
    ]
  where
    covers :
        (lo : ℕ)
        → now ≤ lo + window_ms
        → after lo granted ≤ after lo (zremrange now window_ms (live_scores now z))
    covers lo h =
        let e = after-zremrange lo now window_ms (live_scores now z) h in
        let f = after-live_scores lo now last window_ms z a h in
        omega (arith, e, f, c lo (omega arith))

Capped-more :
    (limit window_ms now : ℕ) (granted : List ℕ)
    → Capped limit window_ms granted
    → ((lo : ℕ) → now ≤ lo + window_ms → after lo granted < limit)
    → Capped limit window_ms (now ∷ granted)
Capped-more limit window_ms now granted c f lo hi le =
    elim (Bool-cases (ltb lo now && leb now hi)) [
      | inr out ↦ ground (arith, c lo hi le)
      | inl in_window ↦
          (let lt : now ≤ hi = ground arith in
            ground (arith, f lo (omega arith), between-after lo hi granted))
    ]

InTime-later :
    (last now window_ms : ℕ) (z : Option Zset)
    → InTime window_ms last z
    → last ≤ now
    → InTime window_ms now z
InTime-later last now window_ms none a le = tt
InTime-later last now window_ms (some z) (t, e, b, a) le = (t, e, omega arith, a)

granted_lem :
    (limit window_ms now : ℕ) (z : Option Zset) (granted : List ℕ) (allowed : Bool)
    → Covers window_ms now z granted
    → Capped limit window_ms granted
    → (allowed ≡ true
        → Covers window_ms now z (now ∷ granted)
          × ((lo : ℕ) → now ≤ lo + window_ms → after lo granted < limit))
    → let granted' = if allowed then now ∷ granted else granted in
      Covers window_ms now z granted' × Capped limit window_ms granted'
granted_lem limit window_ms now z granted true c d f =
    let (c', g) = f refl in (c', Capped-more limit window_ms now granted d g)
granted_lem limit window_ms now z granted false c d f = (c, d)

run_calls_lem :
    (limit window_seconds last : ℕ) (z : Option Zset) (granted : List ℕ) (calls : List (Link × ℕ))
    → NotBackwards last calls
    → InTime (window_seconds * 1000) last z
    → Covers (window_seconds * 1000) last z granted
    → Capped limit (window_seconds * 1000) granted
    → Capped limit (window_seconds * 1000) (run_calls limit window_seconds z granted calls).1
unfolding run_calls is_allowed
run_calls_lem limit window_seconds last z granted [] t a c d = d
run_calls_lem limit window_seconds last z granted ((fails, now) ∷ calls) (le, t) a c d =
    run_calls_lem limit window_seconds now z granted calls t
      (InTime-later last now (window_seconds * 1000) z a le) (λ lo h. c lo (omega arith)) d
run_calls_lem limit window_seconds last z granted ((answer_lost, now) ∷ calls) (le, t) a c d =
    let w : ℕ = window_seconds * 1000 in
    let (a', c', f) = sliding_window_lem limit w last now z granted le a c in
    run_calls_lem limit window_seconds now (sliding_window now w limit z).0 granted calls t a' c' d
run_calls_lem limit window_seconds last z granted ((answers, now) ∷ calls) (le, t) a c d =
    let w : ℕ = window_seconds * 1000 in
    let (a', c', f) = sliding_window_lem limit w last now z granted le a c in
    let (z', allowed) = sliding_window now w limit z in
    let (c'', d') = granted_lem limit w now z' granted allowed c' d f in
    run_calls_lem limit window_seconds now z' (if allowed then now ∷ granted else granted) calls t
      a' c'' d'

-- The cap holds over every interval as long as the window, wherever it begins and not only over
-- aligned buckets, however many calls come, fail or lose their answer, while the callers' clocks
-- agree with that of Redis and do not run backwards and a failed call is denied.
pub run_calls-between :
    (limit window_seconds from lo : ℕ) (calls : List (Link × ℕ))
    → NotBackwards from calls
    → between lo (lo + window_seconds * 1000) (run_calls limit window_seconds none [] calls).1
      ≤ limit
run_calls-between limit window_seconds from lo calls t =
    run_calls_lem limit window_seconds from none [] calls t tt (λ lo h. omega arith)
      (λ lo hi h. omega arith) lo (lo + window_seconds * 1000) (omega arith)
