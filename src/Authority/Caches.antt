-- ===== src/Authority/Caches.antt =====
-- The owner cache of src/domains/seat/seat.owner.ts and the role cache of
-- src/integrations/laravelClient.ts. What Laravel answers is an argument, `none` for a failure or a
-- timeout. Ids and the keys of the caches are numbers.
use mediasoup_socket_io_audi.Prelude.{
  ℕ, ◌+◌, [], ◌∷◌, Option, none, some, Bool, true, false, ltb, leb, length, if◌then◌else◌,
}
use mediasoup_socket_io_audi.Prelude.Redis.{Hash, hget, hset, hdel}

-- OWNER_CACHE_TTL_MS, OWNER_BOOTSTRAP_TTL_MS, ROLE_CACHE_TTL_MS and ROLE_CACHE_MAX_SIZE.
abbrev pub owner_cache_ttl_ms : ℕ
owner_cache_ttl_ms = 30000

abbrev pub owner_bootstrap_ttl_ms : ℕ
owner_bootstrap_ttl_ms = 300000

abbrev pub role_cache_ttl_ms : ℕ
role_cache_ttl_ms = 30000

abbrev pub role_cache_max_size : ℕ
role_cache_max_size = 5000

pub record Entry {ℓ} (A : Type ℓ) : Type ℓ where
  pub value : A
  pub expires_at : ℕ

abbrev pub unexpired {ℓ} : {A : Type ℓ} → ℕ → Option (Entry A) → Option A
unexpired now none = none
unexpired now (some e) = if ltb now e.expires_at then some e.value else none

-- The entry of one room.
abbrev pub OwnerEntry : Type 0
OwnerEntry = Option (Entry ℕ)

-- setRoomOwner
unfoldable pub set_room_owner : ℕ → ℕ → OwnerEntry
set_room_owner owner now =
    some (record { value = owner; expires_at = now + owner_bootstrap_ttl_ms })

-- clearRoomOwner
unfoldable pub clear_room_owner : OwnerEntry → OwnerEntry
clear_room_owner e = none

-- The interval that prunes the cache.
unfoldable pub prune_owner : ℕ → OwnerEntry → OwnerEntry
prune_owner now none = none
prune_owner now (some e) = if leb e.expires_at now then none else some e

abbrev pub store_owner : ℕ → Option ℕ → OwnerEntry → OwnerEntry × Option ℕ
store_owner now none e = (e, none)
store_owner now (some owner) e =
    (some (record { value = owner; expires_at = now + owner_cache_ttl_ms }), some owner)

-- fetchRoomOwner, `none` where it throws.
unfoldable pub fetch_room_owner : ℕ → Option ℕ → OwnerEntry → OwnerEntry × Option ℕ
fetch_room_owner now answer e = elim (unexpired now e) [
  | some owner ↦ (e, some owner)
  | none ↦ store_owner now answer e
]

pub data Role : Type 0 where
  owner admin member : Role

abbrev pub manages : Option Role → Bool
manages none = false
manages (some owner) = true
manages (some admin) = true
manages (some member) = false

abbrev pub RoleCache : Type 0
RoleCache = Hash (Entry Role)

-- pruneRoleCache
unfoldable pub prune_roles : ℕ → RoleCache → RoleCache
prune_roles now [] = []
prune_roles now ((key, e) ∷ c) =
    let rest = prune_roles now c in if leb e.expires_at now then rest else (key, e) ∷ rest

abbrev pub set_role : ℕ → ℕ → Role → RoleCache → RoleCache
set_role now key role c =
    if ltb (length c) role_cache_max_size
    then hset key (record { value = role; expires_at = now + role_cache_ttl_ms }) c
    else c

-- Caching an answer of getMemberRole.
abbrev pub store_role : ℕ → ℕ → Option Role → RoleCache → RoleCache
store_role now key none c = c
store_role now key (some role) c =
    set_role now key role (if leb role_cache_max_size (length c) then prune_roles now c else c)

-- canManageRoom; an expired entry is deleted first.
unfoldable pub can_manage_room : ℕ → ℕ → Option Role → RoleCache → RoleCache × Bool
can_manage_room now key answer c = elim (unexpired now (hget key c)) [
  | some role ↦ (c, manages (some role))
  | none ↦ (store_role now key answer (hdel key c), manages answer)
]
