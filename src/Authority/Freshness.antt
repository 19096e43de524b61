-- ===== src/Authority/Freshness.antt =====
-- How old the answers are that src/domains/seat/seat.owner.ts and src/integrations/laravelClient.ts
-- give from their caches, and how large the caches grow.
use mediasoup_socket_io_audi.Prelude.{
  ℕ, suc, ◌+◌, ◌≤◌, ◌<◌, ◌≡◌, ◌⊎◌, refl, List, [], ◌∷◌, Option, none, some, ltb, leb, length, arith,
  Option-cases, Bool-cases, inl, inr, subst,
}
use mediasoup_socket_io_audi.Prelude.Redis.{hget, hset, hdel, hget-hdel}
use mediasoup_socket_io_audi.Authority.Caches.{
  OwnerEntry, unexpired, owner_cache_ttl_ms, owner_bootstrap_ttl_ms, set_room_owner,
  clear_room_owner, prune_owner, fetch_room_owner, store_owner, Role, RoleCache, manages,
  role_cache_max_size, role_cache_ttl_ms, prune_roles, set_role, store_role, can_manage_room,
}

-- What happens to a room's owner entry, each at its time.
pub data Change : Type 0 where
  creates : ℕ → Change
  fetches : Option ℕ → Change
  clears prunes : Change

unfoldable pub change : ℕ → Change → OwnerEntry → OwnerEntry
change now (creates owner) e = set_room_owner owner now
change now (fetches answer) e = (fetch_room_owner now answer e).0
change now clears e = clear_room_owner e
change now prunes e = prune_owner now e

unfoldable pub change_all : List (ℕ × Change) → OwnerEntry → OwnerEntry
change_all [] e = e
change_all ((now, c) ∷ cs) e = change_all cs (change now c e)

-- Some change says that the room is `owner`'s, less than the TTL for it before `now`: by its creation or
-- by an answer of Laravel.
abbrev pub SaidBy : ℕ → ℕ → ℕ × Change → Type 0
SaidBy owner now (at, creates o) = (o ≡ owner) × (now < at + owner_bootstrap_ttl_ms)
SaidBy owner now (at, fetches (some o)) = (o ≡ owner) × (now < at + owner_cache_ttl_ms)
SaidBy owner now (at, fetches none) = ⊥
SaidBy owner now (at, clears) = ⊥
SaidBy owner now (at, prunes) = ⊥

abbrev pub Said : ℕ → ℕ → List (ℕ × Change) → Type 0
Said owner now [] = ⊥
Said owner now (c ∷ cs) = SaidBy owner now c ⊎ Said owner now cs

change_lem :
    (owner now at : ℕ) (c : Change) (e : OwnerEntry)
    → unexpired now (change at c e) ≡ some owner
    → (unexpired now e ≡ some owner) ⊎ SaidBy owner now (at, c)
unfolding change set_room_owner fetch_room_owner clear_room_owner prune_owner
change_lem owner now at (creates o) e h = inr (ground arith)
change_lem owner now at (fetches (some o)) none h = inr (ground arith)
change_lem owner now at (fetches none) none h = ground arith
change_lem owner now at (fetches none) (some e) h = inl (ground arith)
change_lem owner now at (fetches (some o)) (some e) h = elim (Bool-cases (ltb at e.expires_at)) [
  | inl fresh ↦ inl (ground arith)
  | inr old ↦ inr (ground arith)
]
change_lem owner now at clears e h = absurd (ground arith)
change_lem owner now at prunes none h = inl h
change_lem owner now at prunes (some e) h = inl (ground arith)

change_all_lem :
    (owner now : ℕ) (cs : List (ℕ × Change)) (e : OwnerEntry)
    → unexpired now (change_all cs e) ≡ some owner
    → (unexpired now e ≡ some owner) ⊎ Said owner now cs
unfolding change_all
change_all_lem owner now [] e h = inl h
change_all_lem owner now ((at, c) ∷ cs) e h = elim (change_all_lem owner now cs (change at c e) h) [
  | inr later ↦ inr (inr later)
  | inl entry ↦ elim (change_lem owner now at c e entry) [
    | inl before ↦ inl before
    | inr here ↦ inr (inl here)
  ]
]

fetch_fresh :
    (now owner : ℕ) (answer : Option ℕ) (e : OwnerEntry)
    → unexpired now e ≡ some owner
    → fetch_room_owner now answer e ≡ (e, some owner)
unfolding fetch_room_owner
fetch_fresh now owner answer e h = rw (fetch_room_owner, h) refl

fetch_gone :
    (now : ℕ) (answer : Option ℕ) (e : OwnerEntry)
    → unexpired now e ≡ none
    → fetch_room_owner now answer e ≡ store_owner now answer e
unfolding fetch_room_owner
fetch_gone now answer e h = rw (fetch_room_owner, h) refl

store_owner_lem :
    (now : ℕ) (answer : Option ℕ) (e : OwnerEntry) → (store_owner now answer e).1 ≡ answer
store_owner_lem now none e = refl
store_owner_lem now (some o) e = refl

-- The owner that a lookup gives, whatever happened to the cache before, is Laravel's answer to this
-- lookup or to one less than 30 seconds ago, or the one that the room was created with less than five
-- minutes ago; it fails only if Laravel's answer does.
pub fetch_room_owner_lem :
    (now : ℕ) (answer : Option ℕ) (cs : List (ℕ × Change))
    → let found = (fetch_room_owner now answer (change_all cs none)).1 in
      ((owner : ℕ) → found ≡ some owner → (answer ≡ some owner) ⊎ Said owner now cs)
      × (found ≡ none → answer ≡ none)
fetch_room_owner_lem now answer cs =
    let e : OwnerEntry = change_all cs none in
    elim (Option-cases (unexpired now e)) [
      | inr (owner, fresh) ↦ rw (fetch_fresh now owner answer e fresh) (
        (λ o h. elim (change_all_lem owner now cs none fresh) [
          | inl never ↦ absurd (ground arith)
          | inr said ↦ inr (subst (λ x. Said x now cs) (ground (arith, h)) said)
        ]),
        λ h. ground arith,
      )
      | inl gone ↦
          rw (fetch_gone now answer e gone, store_owner_lem now answer e) ((λ o h. inl h), λ h. h)
    ]

length-hdel {ℓ} : {V : Type ℓ} (k : ℕ) (m : List (ℕ × V)) → length (hdel k m) ≤ length m
unfolding hdel
length-hdel k [] = omega arith
length-hdel k ((j, v) ∷ m) = ground (arith, length-hdel k m)

length-hset {ℓ} :
    {V : Type ℓ} (k : ℕ) (v : V) (m : List (ℕ × V)) → length (hset k v m) ≤ suc (length m)
unfolding hset
length-hset k v [] = omega arith
length-hset k v ((j, w) ∷ m) = ground (arith, length-hset k v m)

length-prune_roles : (now : ℕ) (c : RoleCache) → length (prune_roles now c) ≤ length c
unfolding prune_roles
length-prune_roles now [] = omega arith
length-prune_roles now ((k, e) ∷ c) = ground (arith, length-prune_roles now c)

length-set_role :
    (now key : ℕ) (role : Role) (c : RoleCache)
    → length c ≤ role_cache_max_size
    → length (set_role now key role c) ≤ role_cache_max_size
length-set_role now key role c le =
    ground
      (arith, length-hset key (record { value = role; expires_at = now + role_cache_ttl_ms }) c)

length-store_role :
    (now key : ℕ) (answer : Option Role) (c : RoleCache)
    → length c ≤ role_cache_max_size
    → length (store_role now key answer c) ≤ role_cache_max_size
length-store_role now key none c le = le
length-store_role now key (some role) c le =
    elim (Bool-cases (leb role_cache_max_size (length c))) [
      | inl full ↦ rw full (
          length-set_role now key role (prune_roles now c)
            (omega (arith, length-prune_roles now c)))
      | inr room ↦ rw room (length-set_role now key role c le)
    ]

manage_fresh :
    (now key : ℕ) (role : Role) (answer : Option Role) (c : RoleCache)
    → unexpired now (hget key c) ≡ some role
    → can_manage_room now key answer c ≡ (c, manages (some role))
unfolding can_manage_room
manage_fresh now key role answer c h = rw (can_manage_room, h) refl

manage_gone :
    (now key : ℕ) (answer : Option Role) (c : RoleCache)
    → unexpired now (hget key c) ≡ none
    → can_manage_room now key answer c ≡ (store_role now key answer (hdel key c), manages answer)
unfolding can_manage_room
manage_gone now key answer c h = rw (can_manage_room, h) refl

-- The role cache never grows beyond its cap, and what it says of a user is what Laravel answered to
-- this question, or an unexpired entry, which is not replaced; a failure is not remembered.
pub can_manage_room_lem :
    (now key : ℕ) (answer : Option Role) (c : RoleCache)
    → length c ≤ role_cache_max_size
    → let (c', yes') = can_manage_room now key answer c in
      (length c' ≤ role_cache_max_size)
      × (unexpired now (hget key c) ≡ none → yes' ≡ manages answer)
      × ((role : Role)
          → unexpired now (hget key c) ≡ some role
          → (yes' ≡ manages (some role)) × (c' ≡ c))
      × (answer ≡ none → unexpired now (hget key c') ≡ unexpired now (hget key c))
can_manage_room_lem now key answer c le = elim (Option-cases (unexpired now (hget key c))) [
  | inr (role, fresh) ↦
      rw (manage_fresh now key role answer c fresh)
        (le, (λ h. ground arith), (λ r h. ground (arith, h)), λ h. refl)
  | inl gone ↦ rw (manage_gone now key answer c gone) (
    length-store_role now key answer (hdel key c) (omega (arith, length-hdel key c)),
    (λ h. refl),
    (λ r h. absurd (ground arith)),
    λ h. ground (arith, hget-hdel key key c),
  )
]
