-- ===== src/Router/Fleet.antt =====
-- One event at every instance of the fleet: src/integrations/laravel/event-router.ts.
use mediasoup_socket_io_audi.Prelude.{
  ℕ, ◌+◌, ◌*◌, ◌≤◌, ◌<◌, ◌≡◌, refl, List, [], ◌∷◌, Option, none, some, Bool, true, false,
  if◌then◌else◌, arith, Bool-cases, inl, inr,
}
use mediasoup_socket_io_audi.Prelude.Redis.{Link, answers}
use mediasoup_socket_io_audi.Ingest.Dedup.{Claims, is_set, claim_event, release_claim}
use mediasoup_socket_io_audi.Ingest.Envelope.{LaravelEvent, dedup_ttl_seconds}
use mediasoup_socket_io_audi.Router.Route.{
  Kind, is_known, Work, works, Sockets, to_sockets, emit, Done, determine_target, route,
  EventTarget, to_user, to_user_in_room, to_room, broadcast, suppressed,
}

-- An instance's sockets, and when and how its claim is answered.
pub record Instance : Type 0 where
  pub io : Sockets
  pub now : ℕ
  pub claim_link : Link
  pub release_link : Link

-- Each instance routes its copy of the event, one after the other: from an instance's claim to the
-- handing back of it nothing of another comes. Router/Overlap is about routings that overlap.
unfoldable pub route_all : Kind → LaravelEvent → Option ℕ → Claims → List Instance → List Done
route_all kind e key claims [] = []
route_all kind e key claims (i ∷ is) =
    let d = route i.io i.claim_link i.release_link kind e key i.now claims in
    d ∷ route_all kind e key d.claims is

abbrev pub total_emits : List Done → ℕ
total_emits [] = 0
total_emits (d ∷ ds) = d.emits + total_emits ds

abbrev pub some_calm : List Instance → Bool
some_calm [] = false
some_calm (i ∷ is) = if i.io.throws then some_calm is else true

-- Redis answers every call, all claims fall into one TTL from the time `from`, and every instance that
-- emits the event does so once.
abbrev pub InTtl : LaravelEvent → ℕ → List Instance → Type 0
InTtl e from [] = Unit {0}
InTtl e from (i ∷ is) =
    (i.claim_link ≡ answers)
    × (i.release_link ≡ answers)
    × (from ≤ i.now)
    × (i.now < from + dedup_ttl_seconds * 1000)
    × ((emit i.io (determine_target e)).1 ≡ 1)
    × InTtl e from is

-- Every instance whose emit would not throw, and every one that does not emit, does the work `ws`.
abbrev pub AllWork : List Work → List Instance → List Done → Type 0
AllWork ws [] ds = ds ≡ []
AllWork ws (i ∷ is) [] = ⊥
AllWork ws (i ∷ is) (d ∷ ds) = (i.io.throws ≡ false → d.work ≡ ws) × AllWork ws is ds

sockets_delivered : (ss : List ℕ) → (to_sockets ss).1 ≡ 1 → (to_sockets ss).0.delivered ≡ true
sockets_delivered [] h = absurd (omega arith)
sockets_delivered (s ∷ ss) h = refl

delivered_lem :
    (io : Sockets) (t : EventTarget) → (emit io t).1 ≡ 1 → (emit io t).0.delivered ≡ true
unfolding emit
delivered_lem io (to_user u) h = sockets_delivered (io.of_user u) h
delivered_lem io (to_user_in_room u r) h = sockets_delivered (io.of_user u) h
delivered_lem io (to_room r) h = refl
delivered_lem io broadcast h = refl

-- An instance that loses the claim does its work and emits nothing,
pub loser :
    (i : Instance) (kind : Kind) (e : LaravelEvent) (key d : ℕ) (claims : Claims)
    → is_known kind ≡ true
    → i.claim_link ≡ answers
    → claims key ≡ some d
    → i.now < d
    → route i.io i.claim_link i.release_link kind e (some key) i.now claims
      ≡ record { claims = claims; result = suppressed; emits = 0; work = works kind e true }
unfolding route claim_event
loser i kind e key d claims k a c lt =
    let set : is_set i.now (claims key) ≡ true = ground arith in
    rw (route, k, a, claim_event, set) refl

-- one that wins it does both,
winner :
    (i : Instance) (kind : Kind) (e : LaravelEvent) (key : ℕ) (claims : Claims)
    → is_known kind ≡ true
    → i.claim_link ≡ answers
    → is_set i.now (claims key) ≡ false
    → (emit i.io (determine_target e)).1 ≡ 1
    → i.io.throws ≡ false
    → let r = route i.io i.claim_link i.release_link kind e (some key) i.now claims in
      (r.emits ≡ 1)
      × (r.work ≡ works kind e true)
      × (r.claims key ≡ some (i.now + dedup_ttl_seconds * 1000))
unfolding route claim_event
winner i kind e key claims k a free one calm =
    let there : (emit i.io (determine_target e)).0.delivered ≡ true =
      delivered_lem i.io (determine_target e) one in
    rw (route, k, a, claim_event, free, calm) (ground arith)

-- and one whose emit throws does neither and leaves the claim to the others.
thrower :
    (i : Instance) (kind : Kind) (e : LaravelEvent) (key : ℕ) (claims : Claims)
    → is_known kind ≡ true
    → i.claim_link ≡ answers
    → i.release_link ≡ answers
    → is_set i.now (claims key) ≡ false
    → (emit i.io (determine_target e)).1 ≡ 1
    → i.io.throws ≡ true
    → let r = route i.io i.claim_link i.release_link kind e (some key) i.now claims in
      (r.emits ≡ 0) × (r.result.delivered ≡ false) × (r.claims key ≡ none)
unfolding route claim_event release_claim emit
thrower i kind e key claims k a b free one throws =
    rw (route, k, a, claim_event, free, throws, one) (ground arith)

abbrev AllDone : List Work → List Done → Type 0
AllDone ws [] = Unit {0}
AllDone ws (d ∷ ds) = (d.work ≡ ws) × AllDone ws ds

all_done :
    (kind : Kind) (e : LaravelEvent) (key : Option ℕ) (claims : Claims) (ws : List Work)
    (is : List Instance)
    → AllDone ws (route_all kind e key claims is)
    → AllWork ws is (route_all kind e key claims is)
unfolding route_all
all_done kind e key claims ws [] h = refl
all_done kind e key claims ws (i ∷ is) (h, hs) = (
  (λ calm. h),
  all_done kind e key (route i.io i.claim_link i.release_link kind e key i.now claims).claims ws is
      hs,
)

-- After a claim was won all others lose theirs.
losers :
    (kind : Kind) (e : LaravelEvent) (key d from : ℕ) (claims : Claims) (is : List Instance)
    → is_known kind ≡ true
    → claims key ≡ some d
    → from + dedup_ttl_seconds * 1000 ≤ d
    → InTtl e from is
    → (total_emits (route_all kind e (some key) claims is) ≡ 0)
      × AllDone (works kind e true) (route_all kind e (some key) claims is)
unfolding route_all
losers kind e key d from claims [] k c le t = (refl, tt)
losers kind e key d from claims (i ∷ is) k c le (a, b, lo, hi, one, t) =
    rw (loser i kind e key d claims k a c (omega arith))
      (let (n, w) = losers kind e key d from claims is k c le t in (omega (arith, n), (refl, w)))

is_set_later :
    (from now : ℕ) (o : Option ℕ) → is_set from o ≡ false → from ≤ now → is_set now o ≡ false
is_set_later from now none h le = refl
is_set_later from now (some d) h le = ground arith

-- An event that Laravel sends to every instance is emitted exactly once by the whole fleet, unless the
-- emit throws at every instance, and every instance whose emit does not throw does its own work for it,
-- whether it emits or not: one that throws leaves the emit to the next. This holds while the instances
-- route the event one after the other, the claims and their releases are answered, and the claims fall
-- into one TTL, of an event that has a fan-out key, is known and reaches some socket.
pub route_all-once :
    (kind : Kind) (e : LaravelEvent) (key from : ℕ) (claims : Claims) (is : List Instance)
    → is_known kind ≡ true
    → is_set from (claims key) ≡ false
    → InTtl e from is
    → let ds = route_all kind e (some key) claims is in
      (total_emits ds ≡ (if some_calm is then 1 else 0)) × AllWork (works kind e true) is ds
unfolding route_all
route_all-once kind e key from claims [] k free t = (refl, refl)
route_all-once kind e key from claims (i ∷ is) k free (a, b, lo, hi, one, t) =
    let free' = is_set_later from i.now (claims key) free lo in
    let rest : Claims =
      (route i.io i.claim_link i.release_link kind e (some key) i.now claims).claims in
    elim (Bool-cases i.io.throws) [
      | inl throws ↦
          (let (n, u, c) = thrower i kind e key claims k a b free' one throws in
            let (m, w) = route_all-once kind e key from rest is k (ground arith) t in
            (ground (arith, m), ((λ h. absurd (ground arith)), w)))
      | inr calm ↦
          (let (n, u, c) = winner i kind e key claims k a free' one calm in
            let (m, w) =
              losers kind e key (i.now + dedup_ttl_seconds * 1000) from rest is k c (omega arith)
                t in
            (
              ground (arith, m),
              ((λ h. u), all_done kind e (some key) rest (works kind e true) is w),
            ))
    ]
