-- ===== src/Registry/Ownership.antt =====
-- The ownership claim of src/domains/room/room-registry.ts (claimOwnership, getOwner, isOwner,
-- refreshOwnership, forgetOwnerCache). Rooms and instances are numbers.
use mediasoup_socket_io_audi.Prelude.{
  ℕ, ◌+◌, Option, none, some, Bool, true, false, ◌==◌, ltb, if◌then◌else◌,
}
use mediasoup_socket_io_audi.Prelude.Redis.{update}

-- OWNER_TTL_SECONDS and OWNER_CACHE_MS, in milliseconds.
abbrev pub owner_ttl_ms : ℕ
owner_ttl_ms = 90000

abbrev pub owner_cache_ms : ℕ
owner_cache_ms = 5000

-- The value of `cascade:room:{id}:owner` and the time at which the key expires.
pub record Claim : Type 0 where
  pub holder : ℕ
  pub deadline : ℕ

abbrev pub Owners : Type 0
Owners = ℕ → Option Claim

-- GET: an expired key reads as absent.
abbrev pub live : ℕ → Option Claim → Option ℕ
live now none = none
live now (some c) = if ltb now c.deadline then some c.holder else none

abbrev pub granted : ℕ → ℕ → Option Claim
granted instance_id now = some (record { holder = instance_id; deadline = now + owner_ttl_ms })

pub record ClaimResult : Type 0 where
  pub won : Bool
  pub owner : ℕ

-- `?? instanceId`
abbrev pub or_self : Option ℕ → ℕ → ℕ
or_self none instance_id = instance_id
or_self (some o) instance_id = o

set_nx : Owners → ℕ → ℕ → ℕ → Option ℕ → Owners × Bool
set_nx os room instance_id now none = (update os room (granted instance_id now), true)
set_nx os room instance_id now (some o) = (os, false)

-- claimOwnership: SET NX, and if that fails a GET, a command of its own, which sees the keys
-- `later` at the time `now'`.
unfoldable pub claim_ownership :
    Owners → ℕ → ℕ → ℕ → (later : Owners) → (now' : ℕ) → Owners × ClaimResult
unfolding set_nx
claim_ownership os room instance_id now later now' =
    let (os', ok) = set_nx os room instance_id now (live now (os room)) in
    (
      os',
      if ok
          then record { won = true; owner = instance_id }
          else record { won = false; owner = or_self (live now' (later room)) instance_id },
    )

-- getOwner
unfoldable pub get_owner : Owners → ℕ → ℕ → Option ℕ
get_owner os room now = live now (os room)

pub data RefreshResult : Type 0 where
  held reclaimed lost : RefreshResult

refresh_script : Owners → ℕ → ℕ → Bool → ℕ → Option ℕ → Owners × RefreshResult
refresh_script os room instance_id allow_reclaim now none =
    if allow_reclaim then (update os room (granted instance_id now), reclaimed) else (os, lost)
refresh_script os room instance_id allow_reclaim now (some cur) =
    if cur == instance_id then (update os room (granted instance_id now), held) else (os, lost)

-- A cached read of the owner; each instance has a cache of its own.
pub record CachedOwner : Type 0 where
  pub owner : Option ℕ
  pub expires_at : ℕ

abbrev pub OwnerCache : Type 0
OwnerCache = ℕ → Option CachedOwner

forget_if_reclaimed : RefreshResult → ℕ → OwnerCache → OwnerCache
forget_if_reclaimed reclaimed room cache = update cache room none
forget_if_reclaimed held room cache = cache
forget_if_reclaimed lost room cache = cache

-- refreshOwnership: one script, and a reclaim drops the cached read.
unfoldable pub refresh_ownership :
    Owners → OwnerCache → ℕ → ℕ → Bool → ℕ → Owners × OwnerCache × RefreshResult
unfolding refresh_script forget_if_reclaimed
refresh_ownership os cache room instance_id allow_reclaim now =
    let (os', r) = refresh_script os room instance_id allow_reclaim now (live now (os room)) in
    (os', forget_if_reclaimed r room cache, r)

abbrev pub is_instance : Option ℕ → ℕ → Bool
is_instance none instance_id = false
is_instance (some o) instance_id = o == instance_id

abbrev pub fresh_read : ℕ → Option CachedOwner → Option (Option ℕ)
fresh_read now none = none
fresh_read now (some e) = if ltb now e.expires_at then some e.owner else none

unfoldable pub is_owner_cached :
    Owners → OwnerCache → ℕ → ℕ → ℕ → Option (Option ℕ) → OwnerCache × Bool
is_owner_cached os cache room instance_id now (some o) = (cache, is_instance o instance_id)
is_owner_cached os cache room instance_id now none = (
  update cache room
      (some (record { owner = live now (os room); expires_at = now + owner_cache_ms })),
  is_instance (live now (os room)) instance_id,
)

-- isOwner
unfoldable pub is_owner : Owners → OwnerCache → ℕ → ℕ → ℕ → OwnerCache × Bool
unfolding is_owner_cached
is_owner os cache room instance_id now =
    is_owner_cached os cache room instance_id now (fresh_read now (cache room))

-- forgetOwnerCache
unfoldable pub forget_owner_cache : OwnerCache → ℕ → OwnerCache
forget_owner_cache cache room = update cache room none
