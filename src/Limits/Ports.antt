-- ===== src/Limits/Ports.antt =====
-- `MixerPortRegistry` of src/domains/broadcast/mixer-port-registry.ts.
use mediasoup_socket_io_audi.Prelude.{
  ℕ, zero, suc, ◌+◌, ◌-◌, ◌*◌, ◌<◌, ◌≡◌, refl, List, Bool, true, false, leb, has, if◌then◌else◌,
  arith, Bool-cases, inl, inr, ==_iff, sym, ◌∙◌, subst, ◌==◌, ◌||◌,
}
use mediasoup_socket_io_audi.Prelude.Redis.{sadd, srem, has-sadd, has-srem}

-- PORT_STEP
abbrev pub port_step : ℕ
port_step = 2

-- What allocate returns or throws, and a search that was given too little fuel.
pub data Allocation : Type 0 where
  port : ℕ → Allocation
  exhausted : Allocation
  no_fuel : Allocation

-- The loop of allocate.
unfoldable pub search : ℕ → ℕ → List ℕ → ℕ → Allocation
search zero max_port used p = no_fuel
search (suc n) max_port used p =
    let rest = search n max_port used (p + port_step) in
    if has p used then (if leb max_port (p + port_step) then exhausted else rest) else port p

-- A round for each port of the range is enough.
abbrev pub rounds : ℕ → ℕ → ℕ
rounds base_port max_port = suc (max_port - base_port)

abbrev pub taken : List ℕ → Allocation → List ℕ × Allocation
taken used (port p) = (sadd p used, port p)
taken used exhausted = (used, exhausted)
taken used no_fuel = (used, no_fuel)

-- allocate
unfoldable pub allocate : ℕ → ℕ → List ℕ → List ℕ × Allocation
allocate base_port max_port used =
    taken used (search (rounds base_port max_port) max_port used base_port)

-- release
unfoldable pub release : ℕ → List ℕ → List ℕ
release p used = srem p used

-- The ports below `p` that the loop has passed are all in use.
abbrev pub AllUsed : List ℕ → ℕ → ℕ → Type 0
AllUsed used base_port p =
    (k : ℕ) → base_port + k * port_step < p → has (base_port + k * port_step) used ≡ true

-- A port found is the lowest free one of the range; the range is exhausted if all are in use.
abbrev pub Lowest : ℕ → ℕ → List ℕ → Allocation → Type 0
Lowest base_port max_port used (port p) =
    ((k : ℕ) × (p ≡ base_port + k * port_step))
    × (p < max_port)
    × (has p used ≡ false)
    × AllUsed used base_port p
Lowest base_port max_port used exhausted = AllUsed used base_port max_port
Lowest base_port max_port used no_fuel = ⊥

AllUsed-next :
    (base_port j : ℕ) (used : List ℕ)
    → has (base_port + j * port_step) used ≡ true
    → AllUsed used base_port (base_port + j * port_step)
    → AllUsed used base_port (base_port + j * port_step + port_step)
AllUsed-next base_port j used busy u k lt = elim (Bool-cases (k == j)) [
  | inl same ↦
      subst (λ x. has (base_port + x * port_step) used ≡ true) (sym ((==_iff k j).0 same)) busy
  | inr other ↦ u k (ground arith)
]

abbrev pub is_port : ℕ → Allocation → Bool
is_port q (port p) = p == q
is_port q exhausted = false
is_port q no_fuel = false

search_lem :
    (n base_port max_port j : ℕ) (used : List ℕ)
    → max_port - (base_port + j * port_step) < n
    → base_port + j * port_step < max_port
    → AllUsed used base_port (base_port + j * port_step)
    → Lowest base_port max_port used (search n max_port used (base_port + j * port_step))
unfolding search
search_lem zero base_port max_port j used f lt u = absurd (omega arith)
search_lem (suc n) base_port max_port j used f lt u =
    elim (Bool-cases (has (base_port + j * port_step) used)) [
      | inr free ↦ rw free ((j, refl), lt, free, u)
      | inl busy ↦
          (let more = AllUsed-next base_port j used busy u in
            elim (Bool-cases (leb max_port (base_port + j * port_step + port_step))) [
              | inl last ↦ rw (busy, last) (λ k h. more k (ground arith))
              | inr inside ↦
                  (let next : base_port + j * port_step + port_step
                        ≡ base_port + suc j * port_step =
                      omega arith in
                    rw (busy, inside, next)
                      (search_lem n base_port max_port (suc j) used (ground arith) (ground arith)
                        (rw (← next) more)))
            ])
    ]

taken_lem :
    (base_port max_port : ℕ) (used : List ℕ) (r : Allocation)
    → Lowest base_port max_port used r
    → Lowest base_port max_port used (taken used r).1
      × ((q : ℕ) → has q (taken used r).0 ≡ (has q used || is_port q (taken used r).1))
taken_lem base_port max_port used (port p) l = (l, λ q. ground (arith, has-sadd q p used))
taken_lem base_port max_port used exhausted l = (l, λ q. ground arith)
taken_lem base_port max_port used no_fuel l = absurd l

allocate_search :
    (base_port max_port : ℕ) (used : List ℕ)
    → base_port < max_port
    → Lowest base_port max_port used (search (rounds base_port max_port) max_port used base_port)
allocate_search base_port max_port used lt =
    let first : base_port + 0 * port_step ≡ base_port = omega arith in
    let n : ℕ = rounds base_port max_port in
    subst (λ x. Lowest base_port max_port used (search n max_port used x)) first
      (search_lem n base_port max_port 0 used (omega arith) (omega arith)
        (λ k h. absurd (omega arith)))

-- The port that allocate returns is the lowest free one of the range, and it throws only when every
-- port of the range is in use: the loop always ends, within a round for each port. What it returns was
-- free and is in use from then on, and no other port changes.
pub allocate_lem :
    (base_port max_port : ℕ) (used : List ℕ)
    → base_port < max_port
    → let (used', r) = allocate base_port max_port used in
      Lowest base_port max_port used r × ((q : ℕ) → has q used' ≡ (has q used || is_port q r))
unfolding allocate
allocate_lem base_port max_port used lt =
    taken_lem base_port max_port used (search (rounds base_port max_port) max_port used base_port)
      (allocate_search base_port max_port used lt)

search_same :
    (n max_port p : ℕ) (a b : List ℕ)
    → ((q : ℕ) → has q a ≡ has q b)
    → search n max_port a p ≡ search n max_port b p
unfolding search
search_same zero max_port p a b h = refl
search_same (suc n) max_port p a b h = rw (h p, search_same n max_port (p + port_step) a b h) refl

taken_port :
    (used used' : List ℕ) (p : ℕ) (r : Allocation)
    → taken used r ≡ (used', port p)
    → (r ≡ port p) × (used' ≡ sadd p used)
taken_port used used' p (port q) e = (cc, cc)
taken_port used used' p exhausted e = absurd cc
taken_port used used' p no_fuel e = absurd cc

taken_same : (used : List ℕ) (r : Allocation) → (taken used r).1 ≡ r
taken_same used (port q) = refl
taken_same used exhausted = refl
taken_same used no_fuel = refl

free_again :
    (p q : ℕ) (used : List ℕ) → has p used ≡ false → has q (srem p (sadd p used)) ≡ has q used
free_again p q used f = elim (Bool-cases (p == q)) [
  | inr other ↦ ground (arith, has-srem q p (sadd p used), has-sadd q p used)
  | inl same ↦
      (let h : has q used ≡ false = subst (λ x. has x used ≡ false) ((==_iff p q).0 same) f in
        ground (arith, has-srem q p (sadd p used)))
]

-- A port that is given back is the next to be given out.
pub allocate-release :
    (base_port max_port p : ℕ) (used used' : List ℕ)
    → base_port < max_port
    → allocate base_port max_port used ≡ (used', port p)
    → (allocate base_port max_port (release p used')).1 ≡ port p
unfolding allocate release
allocate-release base_port max_port p used used' lt e =
    let n = rounds base_port max_port in
    let (found, added) = taken_port used used' p (search n max_port used base_port) e in
    let lowest : Lowest base_port max_port used (search n max_port used base_port) =
      (allocate_search base_port max_port used lt) in
    let free : has p used ≡ false =
      (subst (λ r. Lowest base_port max_port used r) found lowest).2 in
    rw added (
      taken_same (srem p (sadd p used)) (search n max_port (srem p (sadd p used)) base_port)
      ∙ (search_same n max_port base_port (srem p (sadd p used)) used
            (λ q. free_again p q used free)
          ∙ found))
