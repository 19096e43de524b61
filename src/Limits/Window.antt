-- ===== src/Limits/Window.antt =====
-- `RateLimiter` of src/infrastructure/rateLimiter.ts for one key: a sorted set of the times of the
-- requests that were let through, each under a member of its own, and the key's expiry.
use mediasoup_socket_io_audi.Prelude.{
  ℕ, ◌+◌, ◌*◌, List, [], ◌∷◌, Option, none, some, Bool, true, false, ltb, leb, length,
  if◌then◌else◌,
}
use mediasoup_socket_io_audi.Prelude.Redis.{Link, answers, fails, answer_lost}

pub record Zset : Type 0 where
  pub scores : List ℕ
  pub deadline : ℕ

-- The scores that Redis finds at a time; a key that has expired holds none.
abbrev pub live_scores : ℕ → Option Zset → List ℕ
live_scores now none = []
live_scores now (some z) = if ltb now z.deadline then z.scores else []

-- ZREMRANGEBYSCORE key 0 (now - windowMs)
unfoldable pub zremrange : ℕ → ℕ → List ℕ → List ℕ
zremrange now window_ms [] = []
zremrange now window_ms (x ∷ xs) =
    let rest = zremrange now window_ms xs in if leb (x + window_ms) now then rest else x ∷ rest

-- What the removal leaves: the key goes with its last member.
abbrev pub kept_key : List ℕ → Option Zset → Option Zset
kept_key [] z = none
kept_key (x ∷ xs) none = none
kept_key (x ∷ xs) (some z) = some (record z { scores = x ∷ xs })

-- SLIDING_WINDOW_LUA: 1 is `true`.
unfoldable pub sliding_window : ℕ → ℕ → ℕ → Option Zset → Option Zset × Bool
sliding_window now window_ms limit z =
    let xs = zremrange now window_ms (live_scores now z) in
    if ltb (length xs) limit
    then (some (record { scores = now ∷ xs; deadline = now + window_ms }), true)
    else (kept_key xs z, false)

-- isAllowed
unfoldable pub is_allowed : Bool → Link → ℕ → ℕ → ℕ → Option Zset → Option Zset × Bool
is_allowed fail_open fails limit window_seconds now z = (z, fail_open)
is_allowed fail_open answers limit window_seconds now z =
    sliding_window now (window_seconds * 1000) limit z
is_allowed fail_open answer_lost limit window_seconds now z =
    ((sliding_window now (window_seconds * 1000) limit z).0, fail_open)
