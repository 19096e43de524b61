-- ===== src/Presence/Online.antt =====
-- What src/domains/presence/presence.service.ts says of a user whose connections come and go one after
-- the other.
use mediasoup_socket_io_audi.Prelude.{
  ℕ, suc, ◌+◌, ◌-◌, ◌<◌, ◌≡◌, List, [], ◌∷◌, Option, none, some, Bool, true, false, ltb,
  if◌then◌else◌,
}
use mediasoup_socket_io_audi.Prelude.Int.{pos}
use mediasoup_socket_io_audi.Presence.Connections.{
  Counter, Presence, on_connect, on_disconnect, sweep,
}

pub data Change : Type 0 where
  connects disconnects sweeps : Change

-- A change of which every command succeeds.
unfoldable pub change : ℕ → ℕ → Change → Presence → Presence
change ttl now connects p = on_connect true true ttl now p
change ttl now disconnects p = on_disconnect true true now p
change ttl now sweeps p = sweep ttl now p

unfoldable pub changes : ℕ → List (ℕ × Change) → Presence → Presence
changes ttl [] p = p
changes ttl ((now, c) ∷ cs) p = changes ttl cs (change ttl now c p)

-- The sockets of the user, of which there are `n` at first.
abbrev pub sockets : ℕ → List (ℕ × Change) → ℕ
sockets n [] = n
sockets n ((now, connects) ∷ cs) = sockets (suc n) cs
sockets n ((now, disconnects) ∷ cs) = sockets (n - 1) cs
sockets n ((now, sweeps) ∷ cs) = sockets n cs

-- A socket disconnects after it has connected, and while there are sockets, changes and the reading at
-- `last` come before the expiry that the last connect or sweep set, `d` at first.
abbrev pub Kept : ℕ → ℕ → ℕ → List (ℕ × Change) → ℕ → Type 0
Kept ttl n d [] last = 0 < n → last < d
Kept ttl n d ((now, connects) ∷ cs) last = (0 < n → now < d) × Kept ttl (suc n) (now + ttl) cs last
Kept ttl n d ((now, disconnects) ∷ cs) last = (0 < n) × (now < d) × Kept ttl (n - 1) d cs last
Kept ttl n d ((now, sweeps) ∷ cs) last = (0 < n → now < d) × Kept ttl n (now + ttl) cs last

-- The updates alternate, the latest first, and end with `online`.
abbrev pub Alternate : Bool → List Bool → Type 0
Alternate online [] = online ≡ false
Alternate online (u ∷ us) = (u ≡ online) × Alternate (if u then false else true) us

abbrev Matches : ℕ → ℕ → Option Counter → Type 0
Matches n d none = n ≡ 0
Matches n d (some c) = (0 < n) × (c.count ≡ pos n) × (c.deadline ≡ some d)

abbrev Agrees : ℕ → ℕ → Presence → Type 0
Agrees n d p = Matches n d p.key × Alternate (ltb 0 n) p.updates
