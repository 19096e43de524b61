-- ===== src/Room/Grace.antt =====
-- The grace period of src/domains/room/auto-close, over histories of a room's presence observations.
use mediasoup_socket_io_audi.Prelude.{
  ℕ, zero, suc, ◌+◌, ◌≤◌, ◌<◌, ◌≡◌, ◌⊎◌, refl, List, [], ◌∷◌, Option, none, some, true, arith,
  Option-cases, inl, inr,
}
use mediasoup_socket_io_audi.Room.Presence.{observe}
use mediasoup_socket_io_audi.Room.AutoClose.{closable}
use mediasoup_socket_io_audi.Room.Sweeps.{closable_eq}

-- What the tracker makes of the observations of a room, each a count and its time, oldest first.
abbrev pub observe_all : Option ℕ → List (ℕ × ℕ) → Option ℕ
observe_all o [] = o
observe_all o ((count, at) ∷ obs) = observe_all (observe o count at) obs

-- Every observation that is less than the grace period before `now` found nobody.
abbrev pub EmptyWithin : ℕ → ℕ → List (ℕ × ℕ) → Type 0
EmptyWithin now grace_ms [] = Unit {0}
EmptyWithin now grace_ms ((count, at) ∷ obs) =
    (now < at + grace_ms → count ≡ 0) × EmptyWithin now grace_ms obs

-- The times do not run backwards, and end by `last`.
abbrev pub Orderly : ℕ → List (ℕ × ℕ) → ℕ → Type 0
Orderly from [] last = from ≤ last
Orderly from ((count, at) ∷ obs) last = (from ≤ at) × Orderly at obs last

last_after : (from last : ℕ) (obs : List (ℕ × ℕ)) → Orderly from obs last → from ≤ last
last_after from last [] t = t
last_after from last ((count, at) ∷ obs) (lo, t) = omega (arith, last_after at last obs t)

all_old :
    (now grace_ms from last : ℕ) (obs : List (ℕ × ℕ))
    → Orderly from obs last
    → last + grace_ms ≤ now
    → EmptyWithin now grace_ms obs
all_old now grace_ms from last [] t le = tt
all_old now grace_ms from last ((count, at) ∷ obs) (lo, t) le =
    (λ lt. absurd (omega (arith, last_after at last obs t)), all_old now grace_ms at last obs t le)

observe_source :
    (o : Option ℕ) (count at since from : ℕ)
    → (observe o count at ≡ some since) ⊎ (at ≤ since)
    → from ≤ at
    → ((o ≡ some since) ⊎ (from ≤ since)) × ((count ≡ 0) ⊎ (at ≤ since))
unfolding observe
observe_source none zero at since from (inl h) lo = ground arith
observe_source (some s) zero at since from (inl h) lo = (inl h, inl refl)
observe_source o (suc n) at since from (inl h) lo = ground arith
observe_source o count at since from (inr h) lo = (inr (omega arith), inr h)

-- A room that is empty since `since` was found empty by all later observations, and `since` is from
-- the room's tracker or from an observation.
zero_since_lem :
    (now grace_ms : ℕ) (o : Option ℕ) (from last since : ℕ) (obs : List (ℕ × ℕ))
    → Orderly from obs last
    → since + grace_ms ≤ now
    → observe_all o obs ≡ some since
    → EmptyWithin now grace_ms obs × ((o ≡ some since) ⊎ (from ≤ since))
zero_since_lem now grace_ms o from last since [] t le e = (tt, inl e)
zero_since_lem now grace_ms o from last since ((count, at) ∷ obs) (lo, t) le e =
    let (empty, source) =
      zero_since_lem now grace_ms (observe o count at) at last since obs t le e in
    let (earlier, here) = observe_source o count at since from source lo in
    ((λ lt. (elim here [ inl z ↦ z | inr h ↦ absurd (omega arith) ]), empty), earlier)

-- A room is closed only if nobody was found in it now, and no observation of the whole grace period
-- before found anybody: one member who comes back starts the period anew.
pub closable-observe_all :
    (now grace_ms count at : ℕ) (obs : List (ℕ × ℕ))
    → Orderly 0 obs at
    → closable now grace_ms (observe_all none obs) (count, at) ≡ true
    → (count ≡ 0) × EmptyWithin now grace_ms obs
closable-observe_all now grace_ms (suc n) at obs t h =
    absurd (ground (arith, closable_eq now grace_ms (observe_all none obs) (suc n, at)))
closable-observe_all now grace_ms zero at obs t h = (
  refl,
  elim (Option-cases (observe_all none obs)) [
    | inl e ↦
        (let eq = closable_eq now grace_ms (observe_all none obs) (zero, at) in
          all_old now grace_ms 0 at obs t (ground (arith, eq)))
    | inr (since, e) ↦
        (let eq = closable_eq now grace_ms (observe_all none obs) (zero, at) in
          (zero_since_lem now grace_ms none 0 at since obs t (ground (arith, eq)) e).0)
  ],
)
