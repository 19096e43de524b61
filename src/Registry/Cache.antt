-- ===== src/Registry/Cache.antt =====
-- The cached reads of `isOwner`: how stale an answer can be.
use mediasoup_socket_io_audi.Prelude.{
  ℕ, ◌+◌, ◌≤◌, ◌<◌, ◌≡◌, refl, Option, none, some, Bool, true, ◌==◌, arith, ap, sym, ◌∙◌,
  Bool-cases, inl, inr,
}
use mediasoup_socket_io_audi.Registry.Ownership.{
  Owners, OwnerCache, CachedOwner, live, is_owner, owner_cache_ms, refresh_ownership, reclaimed,
  fresh_read, is_instance, is_owner_cached,
}

-- `owner_at t room`: who owned the room at the time `t`. A cache is sound if each entry is what a
-- read at a time not after `now` saw, and expires one cache period after that time.
abbrev pub IsSound : (ℕ → ℕ → Option ℕ) → ℕ → OwnerCache → Type 0
IsSound owner_at now cache =
    (room : ℕ) (e : CachedOwner)
    → cache room ≡ some e
    → (t : ℕ) × (t ≤ now) × (e.owner ≡ owner_at t room) × (e.expires_at ≡ t + owner_cache_ms)

-- What a fresh cached read is.
fresh_read_lem :
    (now : ℕ) (c : Option CachedOwner) (o : Option ℕ)
    → fresh_read now c ≡ some o
    → (e : CachedOwner) × (c ≡ some e) × (e.owner ≡ o) × (now < e.expires_at)
fresh_read_lem now none o h = cc
fresh_read_lem now (some e) o h = (e, refl, ground arith, ground arith)

stale :
    (owner_at : ℕ → ℕ → Option ℕ) (os : Owners) (cache : OwnerCache) (room instance_id now : ℕ)
    → IsSound owner_at now cache
    → ((r : ℕ) → live now (os r) ≡ owner_at now r)
    → (o : Option (Option ℕ)) → fresh_read now (cache room) ≡ o
    → IsSound owner_at now (is_owner_cached os cache room instance_id now o).0
      × ((t : ℕ) × (t ≤ now)
          × (now < t + owner_cache_ms)
          × ((is_owner_cached os cache room instance_id now o).1
              ≡ is_instance (owner_at t room) instance_id))
unfolding is_owner_cached
stale owner_at os cache room instance_id now sound true_now (some o) h =
    let (e, at, same, lt) = fresh_read_lem now (cache room) o h in
    let (t, le, was, ends) = sound room e at in
    (sound, (t, le, omega arith, ap (λ x. is_instance x instance_id) (sym same ∙ was)))
stale owner_at os cache room instance_id now sound true_now none h = (
  λ r e at. elim (Bool-cases (room == r)) [
    | inl here ↦ (now, omega arith, ground (arith, true_now room), ground arith)
    | inr there ↦ sound r e (ground arith)
  ],
  (now, omega arith, omega arith, ap (λ x. is_instance x instance_id) (true_now room)),
)

-- An answer of `isOwner` keeps the cache sound, and is the truth of some time not after `now` and
-- less than one cache period before it.
pub is_owner_staleness :
    (owner_at : ℕ → ℕ → Option ℕ) (os : Owners) (cache : OwnerCache) (room instance_id now : ℕ)
    → IsSound owner_at now cache
    → ((r : ℕ) → live now (os r) ≡ owner_at now r)
    → IsSound owner_at now (is_owner os cache room instance_id now).0
      × ((t : ℕ) × (t ≤ now)
          × (now < t + owner_cache_ms)
          × ((is_owner os cache room instance_id now).1
              ≡ is_instance (owner_at t room) instance_id))
unfolding is_owner
is_owner_staleness owner_at os cache room instance_id now sound true_now =
    stale owner_at os cache room instance_id now sound true_now (fresh_read now (cache room)) refl

-- After a refresh that reclaims the room, `isOwner` says so at once, whatever was cached before.
pub is_owner-reclaimed :
    (os : Owners) (cache : OwnerCache) (room instance_id now : ℕ) (allow : Bool)
    → (refresh_ownership os cache room instance_id allow now).2 ≡ reclaimed
    → let (os', cache', r) = refresh_ownership os cache room instance_id allow now in
      (is_owner os' cache' room instance_id now).1 ≡ true
unfolding is_owner refresh_ownership
is_owner-reclaimed os cache room instance_id now allow e = ground arith
