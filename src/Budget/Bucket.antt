-- ===== src/Budget/Bucket.antt =====
-- `TokenBucket` of src/infrastructure/socketEventBudget.ts and the middleware that spends from it.
-- `capacity` and `refill_per_second` are whole numbers, as the configuration has them.
use mediasoup_socket_io_audi.Prelude.{
  ℕ, ◌+◌, ◌-◌, ◌*◌, Bool, true, false, leb, ltb, if◌then◌else◌, min, List, [], ◌∷◌,
}

pub record TokenBucket : Type 0 where
  pub capacity : ℕ
  pub refill_per_second : ℕ
  -- In thousandths of a token.
  pub tokens : ℕ
  -- In milliseconds.
  pub last_refill_at : ℕ

-- The constructor: the bucket starts full.
unfoldable pub new_bucket : (capacity refill_per_second now : ℕ) → TokenBucket
new_bucket capacity refill_per_second now = record {
  capacity = capacity;
  refill_per_second = refill_per_second;
  tokens = 1000 * capacity;
  last_refill_at = now;
}

-- refill: a clock that stands still or runs back adds nothing. One token in a second is one
-- thousandth in a millisecond.
unfoldable pub refill : TokenBucket → ℕ → TokenBucket
refill b now = if leb now b.last_refill_at then b else record b {
  tokens = min (1000 * b.capacity) (b.tokens + (now - b.last_refill_at) * b.refill_per_second);
  last_refill_at = now;
}

unfoldable pub spend : TokenBucket → ℕ → TokenBucket × Bool
spend b cost =
    if ltb b.tokens (1000 * cost)
    then (b, false)
    else (record b { tokens = b.tokens - 1000 * cost }, true)

-- consume, which refills first also when it refuses.
unfoldable pub consume : TokenBucket → ℕ → ℕ → TokenBucket × Bool
unfolding refill spend
consume b cost now = spend (refill b now) cost

-- What installSocketEventBudget does with a packet: pass it on, or answer RATE_LIMITED to its
-- acknowledgement, if it has one, count it, and drop it.
pub data Verdict : Type 0 where
  passed : Verdict
  rejected : (answered : Bool) → Verdict

pub record Packet : Type 0 where
  pub at : ℕ
  pub has_ack : Bool

-- The middleware, with its counter of rejected packets.
unfoldable pub on_packet : TokenBucket × ℕ → Packet → (TokenBucket × ℕ) × Verdict
on_packet (b, exceeded) p =
    let (b', ok) = consume b 1 p.at in
    if ok then ((b', exceeded), passed) else ((b', exceeded + 1), rejected p.has_ack)

unfoldable pub on_packets : TokenBucket × ℕ → List Packet → (TokenBucket × ℕ) × List Verdict
on_packets s [] = (s, [])
on_packets s (p ∷ ps) =
    let (s', v) = on_packet s p in let (s'', vs) = on_packets s' ps in (s'', v ∷ vs)
