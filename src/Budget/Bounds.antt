-- ===== src/Budget/Bounds.antt =====
-- How many events a socket's budget lets through.
use mediasoup_socket_io_audi.Prelude.{
  ℕ, suc, ◌+◌, ◌-◌, ◌*◌, ◌≤◌, ◌<◌, ◌≡◌, refl, true, leb, if◌then◌else◌, List, [], ◌∷◌, arith,
  length, Bool-cases, inl, inr, leb→le, max, ◌∙◌, ap,
}
use mediasoup_socket_io_audi.Budget.Bucket.{
  TokenBucket, refill, consume, spend, Verdict, passed, rejected, Packet, on_packet, on_packets,
}

abbrev pub passed_count : List Verdict → ℕ
passed_count [] = 0
passed_count (passed ∷ vs) = suc (passed_count vs)
passed_count (rejected a ∷ vs) = passed_count vs

-- The bucket never holds more than its capacity.
abbrev pub IsValid : TokenBucket → Type 0
IsValid b = b.tokens ≤ 1000 * b.capacity

-- The greatest time of a list of packets, or `t`.
abbrev pub latest : ℕ → List Packet → ℕ
latest t [] = t
latest t (p ∷ ps) = latest (max t p.at) ps

-- What a refill adds at most.
refill_step :
    (b : TokenBucket) (now : ℕ)
    → IsValid b
    → IsValid (refill b now)
      × ((refill b now).capacity ≡ b.capacity)
      × ((refill b now).refill_per_second ≡ b.refill_per_second)
      × ((refill b now).last_refill_at ≡ max b.last_refill_at now)
      × ((refill b now).tokens
          ≤ b.tokens + (max b.last_refill_at now - b.last_refill_at) * b.refill_per_second)
unfolding refill
refill_step b now v = elim (Bool-cases (leb now b.last_refill_at)) [
  | inl still ↦
      rw still (v, refl, refl, omega (arith, leb→le now b.last_refill_at still), omega arith)
  | inr later ↦
      let lt : b.last_refill_at < now = ground arith in
      let top : max b.last_refill_at now ≡ now = omega arith in
      rw (later, top) (omega arith, refl, refl, refl, omega arith)
]

spend_step :
    (b : TokenBucket)
    → IsValid b
    → IsValid (spend b 1).0
      × ((spend b 1).0.capacity ≡ b.capacity)
      × ((spend b 1).0.refill_per_second ≡ b.refill_per_second)
      × ((spend b 1).0.last_refill_at ≡ b.last_refill_at)
      × ((spend b 1).0.tokens + (if (spend b 1).1 then 1000 else 0) ≡ b.tokens)
unfolding spend
spend_step b v = ground arith

consume_step :
    (b : TokenBucket) (now : ℕ)
    → IsValid b
    → IsValid (consume b 1 now).0
      × ((consume b 1 now).0.capacity ≡ b.capacity)
      × ((consume b 1 now).0.refill_per_second ≡ b.refill_per_second)
      × ((consume b 1 now).0.last_refill_at ≡ max b.last_refill_at now)
      × ((consume b 1 now).0.tokens + (if (consume b 1 now).1 then 1000 else 0)
          ≤ b.tokens + (max b.last_refill_at now - b.last_refill_at) * b.refill_per_second)
unfolding consume
consume_step b now v =
    let (v1, c1, r1, l1, t1) = refill_step b now v in
    let (v2, c2, r2, l2, t2) = spend_step (refill b now) v1 in
    (v2, c2 ∙ c1, r2 ∙ r1, l2 ∙ l1, rw t2 t1)

-- A bucket with a token lets a packet through and loses no more than that token.
consume_enough :
    (b : TokenBucket) (now : ℕ)
    → IsValid b
    → 1000 ≤ b.tokens
    → ((consume b 1 now).1 ≡ true) × (b.tokens ≤ (consume b 1 now).0.tokens + 1000)
unfolding consume refill spend
consume_enough b now v h = elim (Bool-cases (leb now b.last_refill_at)) [
  | inl still ↦ ground arith
  | inr later ↦ ground arith
]

-- Refills over adjoining intervals add up.
refill_split : (a b c r : ℕ) → a ≤ b → b ≤ c → (b - a) * r + (c - b) * r ≡ (c - a) * r
refill_split a b c r h k = omega (arith, ap (λ (t : ℕ). t * r) (interval a b c h k))
  where
    interval : (a b c : ℕ) → a ≤ b → b ≤ c → (b - a) + (c - b) ≡ c - a
    interval a b c h k = omega arith

le-latest : (t : ℕ) (ps : List Packet) → t ≤ latest t ps
le-latest t [] = omega arith
le-latest t (p ∷ ps) = omega (arith, le-latest (max t p.at) ps)

-- The bound on a run from the bucket `b`, whose counter of rejections stood at `n`.
abbrev pub Bounded : TokenBucket → ℕ → List Packet → (TokenBucket × ℕ) × List Verdict → Type 0
Bounded b n ps ((b', n'), vs) =
    IsValid b'
    × (b'.last_refill_at ≡ latest b.last_refill_at ps)
    × (1000 * passed_count vs + b'.tokens
        ≤ b.tokens + (latest b.last_refill_at ps - b.last_refill_at) * b.refill_per_second)
    × (n' + passed_count vs ≡ n + length ps)

extend_bound :
    (b b1 : TokenBucket) (n n1 : ℕ) (p : Packet) (ps : List Packet) (v : Verdict)
    (r : (TokenBucket × ℕ) × List Verdict)
    → Bounded b1 n1 ps r
    → b1.refill_per_second ≡ b.refill_per_second
    → b1.last_refill_at ≡ max b.last_refill_at p.at
    → b1.tokens + 1000 * passed_count (v ∷ [])
      ≤ b.tokens + (max b.last_refill_at p.at - b.last_refill_at) * b.refill_per_second
    → n1 + passed_count (v ∷ []) ≡ n + 1
    → Bounded b n (p ∷ ps) (r.0, v ∷ r.1)
extend_bound b b1 n n1 p ps passed ((b', n'), vs) (v, l, t, c) er el et en = (
  v,
  l ∙ ap (λ t. latest t ps) el,
  omega (
    arith,
    refill_split b.last_refill_at (max b.last_refill_at p.at)
        (latest (max b.last_refill_at p.at) ps) b.refill_per_second (omega arith)
        (le-latest (max b.last_refill_at p.at) ps),
    rw (el, er) at t,
  ),
  omega arith,
)
extend_bound b b1 n n1 p ps (rejected a) ((b', n'), vs) (v, l, t, c) er el et en = (
  v,
  l ∙ ap (λ t. latest t ps) el,
  omega (
    arith,
    refill_split b.last_refill_at (max b.last_refill_at p.at)
        (latest (max b.last_refill_at p.at) ps) b.refill_per_second (omega arith)
        (le-latest (max b.last_refill_at p.at) ps),
    rw (el, er) at t,
  ),
  omega arith,
)

-- Over any packets of one socket, at whatever times the clock shows, the budget lets through at
-- most what the bucket holds and what the rate refills between the bucket's last refill and the
-- greatest reading of the clock, both sides counted in thousandths of a token; every packet is
-- either let through or counted as exceeding the budget; and the bucket never holds more than its
-- capacity.
pub on_packets-Bounded :
    (b : TokenBucket) (n : ℕ) (ps : List Packet) → IsValid b → Bounded b n ps (on_packets (b, n) ps)
unfolding on_packets
on_packets-Bounded b n [] v = (v, refl, omega arith, omega arith)
on_packets-Bounded b n (p ∷ ps) v =
    let (v1, c1, r1, l1, t1) = consume_step b p.at v in
    elim (Bool-cases (consume b 1 p.at).1) [
      | inl ok ↦
          let step : on_packet (b, n) p ≡ (((consume b 1 p.at).0, n), passed) =
            unfold on_packet in rw ok refl in
          rw step (
            extend_bound b (consume b 1 p.at).0 n n p ps passed
              (on_packets ((consume b 1 p.at).0, n) ps)
              (on_packets-Bounded (consume b 1 p.at).0 n ps v1) r1 l1 (rw ok at t1) (omega arith))
      | inr no_ ↦
          let step : on_packet (b, n) p ≡ (((consume b 1 p.at).0, n + 1), rejected p.has_ack) =
            unfold on_packet in rw no_ refl in
          rw step (
            extend_bound b (consume b 1 p.at).0 n (n + 1) p ps (rejected p.has_ack)
              (on_packets ((consume b 1 p.at).0, n + 1) ps)
              (on_packets-Bounded (consume b 1 p.at).0 (n + 1) ps v1) r1 l1 (rw no_ at t1)
              (omega arith))
    ]

-- A burst of no more packets than the bucket holds tokens passes whole, at whatever times the
-- clock shows; so the first `capacity` packets of a connection, whose bucket starts full, do.
pub burst_passes :
    (b : TokenBucket) (n : ℕ) (ps : List Packet)
    → IsValid b
    → 1000 * length ps ≤ b.tokens
    → (passed_count (on_packets (b, n) ps).1 ≡ length ps) × ((on_packets (b, n) ps).0.1 ≡ n)
unfolding on_packets
burst_passes b n [] v h = (refl, refl)
burst_passes b n (p ∷ ps) v h =
    let v1 : IsValid (consume b 1 p.at).0 = (consume_step b p.at v).0 in
    let (ok, left) = consume_enough b p.at v (omega arith) in
    let step : on_packet (b, n) p ≡ (((consume b 1 p.at).0, n), passed) =
      unfold on_packet in rw ok refl in
    let (all, same) = burst_passes (consume b 1 p.at).0 n ps v1 (omega arith) in
    rw step (ap suc all, same)
