-- ===== src/Room/Sweeps.antt =====
-- When src/domains/room/auto-close closes a room.
use mediasoup_socket_io_audi.Prelude.{
  ℕ, zero, suc, ◌+◌, ◌≤◌, ◌≡◌, ◌==◌, refl, List, [], ◌∷◌, ◌++◌, Option, none, some, Bool, true,
  false, not, ◌&&◌, ◌||◌, leb, if◌then◌else◌, arith, has, take, length, Option-cases, inl, inr,
  Bool-cases, ==_iff, ◌%◌, ap, subst,
}
use mediasoup_socket_io_audi.Room.Presence.{observe}
use mediasoup_socket_io_audi.Room.AutoClose.{
  Trackers, Fleet, Exists, failed, found, observed, closable, confirm, get_inactive, get_candidates,
  filter_activity_expired, orphans_of, should_close, max_presence_checks, orphan_sweep_every,
}

-- The presence check of the room answers, finds nobody, and has found nobody since at least the grace
-- period before `now`.
abbrev pub empty_for : ℕ → ℕ → Option ℕ → Option (ℕ × ℕ) → Bool
empty_for now grace_ms zero_since none = false
empty_for now grace_ms zero_since (some (zero, at)) = elim zero_since [
  | none ↦ leb (at + grace_ms) now
  | some since ↦ leb (since + grace_ms) now
]
empty_for now grace_ms zero_since (some (suc n, at)) = false

pub closable_eq :
    (now grace_ms : ℕ) (zero_since : Option ℕ) (check : ℕ × ℕ)
    → closable now grace_ms zero_since check ≡ empty_for now grace_ms zero_since (some check)
unfolding should_close observe
closable_eq now grace_ms zero_since (zero, at) = ground arith
closable_eq now grace_ms zero_since (suc n, at) = ground arith

-- Checking a room twice in a sweep says the same.
empty_for-observe :
    (now grace_ms : ℕ) (check : ℕ × ℕ) (zero_since : Option ℕ)
    → empty_for now grace_ms (observe zero_since check.0 check.1) (some check)
      ≡ empty_for now grace_ms zero_since (some check)
unfolding observe
empty_for-observe now grace_ms (zero, at) none = ground arith
empty_for-observe now grace_ms (zero, at) (some since) = ground arith
empty_for-observe now grace_ms (suc n, at) zero_since = ground arith

empty_for-observed :
    (now grace_ms r room : ℕ) (z : Trackers) (presence : ℕ → Option (ℕ × ℕ)) (check : ℕ × ℕ)
    → presence room ≡ some check
    → empty_for now grace_ms (observed z room check r) (presence r)
      ≡ empty_for now grace_ms (z r) (presence r)
empty_for-observed now grace_ms r room z presence check e = elim (Bool-cases (room == r)) [
  | inr other ↦ ground arith
  | inl same ↦
      (let at : presence r ≡ some check =
          subst (λ x. presence x ≡ some check) ((==_iff room r).0 same) e in
        rw at (ground (arith, empty_for-observe now grace_ms check (z r))))
]

-- A room is closed if it is a candidate and is empty for the grace period.
has-confirm :
    (now grace_ms r : ℕ) (presence : ℕ → Option (ℕ × ℕ)) (z : Trackers) (rooms : List ℕ)
    → has r (confirm now grace_ms presence z rooms).1
      ≡ (has r rooms && empty_for now grace_ms (z r) (presence r))
unfolding confirm
has-confirm now grace_ms r presence z [] = refl
has-confirm now grace_ms r presence z (room ∷ rooms) = elim (Option-cases (presence room)) [
  | inl unknown ↦ elim (Bool-cases (room == r)) [
    | inr other ↦ ground (arith, has-confirm now grace_ms r presence z rooms)
    | inl same ↦
        (let at : presence r ≡ none =
            subst (λ x. presence x ≡ none) ((==_iff room r).0 same) unknown in
          ground (arith, has-confirm now grace_ms r presence z rooms))
  ]
  | inr (check, known) ↦
      (let rest = has-confirm now grace_ms r presence (observed z room check) rooms in
        let same_answer = empty_for-observed now grace_ms r room z presence check known in
        elim (Bool-cases (room == r)) [
          | inr other ↦ ground (arith, rest, same_answer)
          | inl same ↦
              (let here : room ≡ r = (==_iff room r).0 same in
                let closes : closable now grace_ms (z room) check
                    ≡ empty_for now grace_ms (z r) (presence r) =
                  subst
                    (λ x.
                      closable now grace_ms (z room) check
                      ≡ empty_for now grace_ms (z x) (presence x))
                    here (rw known (closable_eq now grace_ms (z room) check)) in
                ground (arith, rest, same_answer, closes))
        ])
]

-- EXISTS answers that the key is not there.
abbrev pub is_absent : Exists → Bool
is_absent failed = false
is_absent (found there) = not there

-- A room that a sweep looks at: its activity has expired and, under affinity, it is this instance's or,
-- in every tenth sweep, nobody's.
abbrev pub is_candidate : Bool → ℕ → Fleet → ℕ → Bool
is_candidate affinity_enabled sweep_count f room =
    is_absent (f.activity room)
    && (if not affinity_enabled
        then has room f.scanned
        else has room f.local
          || (sweep_count % orphan_sweep_every == 0
              && has room f.scanned
              && is_absent (f.owner room)))

has-++ : (r : ℕ) (xs ys : List ℕ) → has r (xs ++ ys) ≡ (has r xs || has r ys)
has-++ r [] ys = refl
has-++ r (x ∷ xs) ys = ground (arith, has-++ r xs ys)

has-take : (r n : ℕ) (xs : List ℕ) → has r (take n xs) ≡ true → has r xs ≡ true
has-take r zero xs h = ground arith
has-take r (suc n) [] h = h
has-take r (suc n) (x ∷ xs) h = ground (arith, has-take r n xs)

take_all : (n : ℕ) (xs : List ℕ) → length xs ≤ n → take n xs ≡ xs
take_all zero [] le = refl
take_all (suc n) [] le = refl
take_all zero (x ∷ xs) le = absurd (omega arith)
take_all (suc n) (x ∷ xs) le = ap (◌∷◌ x) (take_all n xs (omega arith))

abbrev kept : Exists → ℕ → List ℕ → List ℕ
kept e room rest = elim e [ failed ↦ rest | found there ↦ if there then rest else room ∷ rest ]

has-kept :
    (e : Exists) (r room : ℕ) (rest : List ℕ)
    → has r (kept e room rest) ≡ (((room == r) && is_absent e) || has r rest)
has-kept failed r room rest = ground arith
has-kept (found true) r room rest = ground arith
has-kept (found false) r room rest = ground arith

at_equal : (g : ℕ → Bool) (r room : ℕ) → ((room == r) && g room) ≡ ((room == r) && g r)
at_equal g r room = elim (Bool-cases (room == r)) [
  | inr other ↦ ground arith
  | inl same ↦
      subst (λ x. ((room == r) && g room) ≡ ((room == r) && g x)) ((==_iff room r).0 same) refl
]

has-filter :
    (r : ℕ) (activity : ℕ → Exists) (rooms : List ℕ)
    → has r (filter_activity_expired activity rooms) ≡ (has r rooms && is_absent (activity r))
unfolding filter_activity_expired
has-filter r activity [] = refl
has-filter r activity (room ∷ rooms) =
    let rest = filter_activity_expired activity rooms in
    let e = has-kept (activity room) r room rest in
    let f = at_equal (λ x. is_absent (activity x)) r room in
    ground (arith, has-filter r activity rooms, e, f)

has-orphans :
    (r : ℕ) (owner : ℕ → Exists) (local rooms : List ℕ)
    → has r (orphans_of owner local rooms)
      ≡ (has r rooms && not (has r local) && is_absent (owner r))
unfolding orphans_of
has-orphans r owner local [] = refl
has-orphans r owner local (room ∷ rooms) =
    let rest = orphans_of owner local rooms in
    let e = has-kept (owner room) r room rest in
    let f = at_equal (λ x. is_absent (owner x)) r room in
    let g = at_equal (λ x. has x local) r room in
    elim (Bool-cases (has room local)) [
      | inl ours ↦ ground (arith, has-orphans r owner local rooms, g)
      | inr foreign ↦ ground (arith, has-orphans r owner local rooms, e, f, g)
    ]

has-candidates :
    (affinity_enabled : Bool) (n : ℕ) (f : Fleet) (r : ℕ)
    → has r (get_candidates affinity_enabled n f) ≡ is_candidate affinity_enabled n f r
unfolding get_candidates
has-candidates false n f r = ground (arith, has-filter r f.activity f.scanned)
has-candidates true n f r =
    let old = filter_activity_expired f.activity f.scanned in
    let own = filter_activity_expired f.activity f.local in
    let a = has-filter r f.activity f.local in
    let b = has-filter r f.activity f.scanned in
    let c = has-orphans r f.owner f.local old in
    let d = has-++ r own (orphans_of f.owner f.local old) in
    elim (Bool-cases (n % orphan_sweep_every == 0)) [
      | inl tenth ↦ ground (arith, a, b, c, d)
      | inr other ↦ ground (arith, a)
    ]

-- A sweep closes a room only if it is a candidate that the presence check finds empty and has found
-- empty for the grace period; and it closes every such room while there are no more candidates than it
-- checks.
pub get_inactive_lem :
    (affinity_enabled : Bool) (n now grace_ms r : ℕ) (f : Fleet) (z : Trackers)
    → let closes = has r (get_inactive affinity_enabled n now grace_ms f z).1 in
      let should =
        is_candidate affinity_enabled n f r && empty_for now grace_ms (z r) (f.presence r) in
      (closes ≡ true → should ≡ true)
      × (length (get_candidates affinity_enabled n f) ≤ max_presence_checks → closes ≡ should)
unfolding get_inactive
get_inactive_lem affinity_enabled n now grace_ms r f z =
    let all : List ℕ = get_candidates affinity_enabled n f in
    let e = has-confirm now grace_ms r f.presence z (take max_presence_checks all) in
    let c = has-candidates affinity_enabled n f r in
    (
      λ h. ground (arith, e, c, has-take r max_presence_checks all),
      λ le.
          rw (take_all max_presence_checks all le)
            (rw (← c) (has-confirm now grace_ms r f.presence z all)),
    )

-- The presence check answers for each of the rooms that somebody is there.
abbrev pub Busy : (ℕ → Option (ℕ × ℕ)) → List ℕ → Type 0
Busy presence [] = Unit {0}
Busy presence (room ∷ rooms) =
    ((n at : ℕ) × (presence room ≡ some (suc n, at))) × Busy presence rooms

confirm-Busy :
    (now grace_ms : ℕ) (presence : ℕ → Option (ℕ × ℕ)) (z : Trackers) (rooms : List ℕ)
    → Busy presence rooms
    → (confirm now grace_ms presence z rooms).1 ≡ []
unfolding confirm
confirm-Busy now grace_ms presence z [] b = refl
confirm-Busy now grace_ms presence z (room ∷ rooms) ((n, at, e), b) =
    let closes = closable_eq now grace_ms (z room) (suc n, at) in
    ground (arith, closes, confirm-Busy now grace_ms presence (observed z room (suc n, at)) rooms b)

-- While the first fifty candidates are rooms that are in use, a sweep closes none, at whatever time
-- and however long the candidates that come after them have been empty.
pub get_inactive-Busy :
    (affinity_enabled : Bool) (n now grace_ms : ℕ) (f : Fleet) (z : Trackers)
    → Busy f.presence (take max_presence_checks (get_candidates affinity_enabled n f))
    → (get_inactive affinity_enabled n now grace_ms f z).1 ≡ []
unfolding get_inactive
get_inactive-Busy affinity_enabled n now grace_ms f z b =
    confirm-Busy now grace_ms f.presence z
      (take max_presence_checks (get_candidates affinity_enabled n f)) b
