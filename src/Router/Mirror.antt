-- ===== src/Router/Mirror.antt =====
-- `applyRoomBlock` and `mirrorRoomUnblock` of src/integrations/laravel/event-router.ts for one room and
-- user: the ordering guard before the mirror of src/domains/room/room-block.repository.ts.
use mediasoup_socket_io_audi.Prelude.{
  ℕ, ◌+◌, ◌*◌, ◌≤◌, ◌≡◌, refl, List, [], ◌∷◌, Option, none, some, Bool, true, false, if◌then◌else◌,
  arith, Bool-cases, inl, inr, ◌∙◌, subst,
}
use mediasoup_socket_io_audi.Prelude.Int.{ℤ}
use mediasoup_socket_io_audi.Prelude.Redis.{Link, answers}
use mediasoup_socket_io_audi.Ingest.Ordering.{Key, Marker, accept_if_not_older}
use mediasoup_socket_io_audi.Ingest.Versions.{
  Arrival, InWindow, apply_all, apply_all-latest, latest,
}
use mediasoup_socket_io_audi.Room.Blocks.{Blocks, Expiry, expiry_of, write_block, delete_block}

-- VERSION_TTL_SECONDS
abbrev pub version_ttl_seconds : ℕ
version_ttl_seconds = 600

-- A block, with the flag and the number of seconds in its payload and whether this is the copy for the
-- room, or an unblock.
pub data BlockEvent : Type 0 where
  member_removed : (permanent : Bool) (remaining_seconds : Option ℤ) (room_copy : Bool) → BlockEvent
  user_unblocked : BlockEvent

-- The version marker, the mirror, and how often the user was ejected.
pub record Mirror : Type 0 where
  pub key : Key
  pub blocks : Blocks
  pub ejections : ℕ

-- `permanent ? null : remainingSeconds`
abbrev pub duration : Bool → Option ℤ → Option ℤ
duration permanent remaining_seconds = if permanent then none else remaining_seconds

-- acceptsOrder: an event without a version is not guarded.
abbrev pub accepts_order : Link → ℕ → Key → Option ℕ → Key × Bool
accepts_order link now key none = (key, true)
accepts_order link now key (some version) =
    accept_if_not_older link now key version version_ttl_seconds

-- What a fresh event does: a block ejects on the room's copy.
abbrev pub apply_fresh : Link → ℕ → ℕ → BlockEvent → Mirror → Mirror
apply_fresh link user now (member_removed permanent remaining_seconds room_copy) m = record m {
  blocks = (write_block link m.blocks user (duration permanent remaining_seconds) now).0;
  ejections = m.ejections + (if room_copy then 1 else 0);
}
apply_fresh link user now user_unblocked m = record m {
  blocks = (delete_block link m.blocks user).0;
}

-- The guard of applyRoomBlock and mirrorRoomUnblock, one call of Redis,
abbrev pub guard_block_event : Link → ℕ → Option ℕ → Mirror → Mirror × Bool
guard_block_event link now version m =
    let (key, fresh) = accepts_order link now m.key version in (record m { key = key }, fresh)

-- and what follows it, with another call.
abbrev pub write_block_event : Link → ℕ → ℕ → BlockEvent → Bool → Mirror → Mirror
write_block_event link user now e fresh m = if fresh then apply_fresh link user now e m else m

-- applyRoomBlock and mirrorRoomUnblock, with nothing of the user between their two calls; what comes
-- between them in truth is in Router/Crossing.
unfoldable pub apply_block_event : Link → Link → ℕ → ℕ → Option ℕ → BlockEvent → Mirror → Mirror
apply_block_event guard_link write_link user now version e m =
    let (m', fresh) = guard_block_event guard_link now version m in
    write_block_event write_link user now e fresh m'

-- Events as they arrive, each with its time and its version, while Redis answers every call.
unfoldable pub apply_block_events : ℕ → List (Arrival BlockEvent) → Mirror → Mirror
apply_block_events user [] m = m
apply_block_events user (x ∷ xs) m =
    apply_block_events user xs
      (apply_block_event answers answers user x.at (some x.version) x.value m)

-- What an event makes of the user's key.
abbrev pub mirrored : ℕ → BlockEvent → Option Expiry
mirrored at (member_removed permanent remaining_seconds room_copy) =
    some (expiry_of at (duration permanent remaining_seconds))
mirrored at user_unblocked = none

abbrev pub all_mirrored : List (Arrival BlockEvent) → List (Arrival (Option Expiry))
all_mirrored [] = []
all_mirrored (x ∷ xs) =
    record { at = x.at; version = x.version; value = mirrored x.at x.value } ∷ all_mirrored xs

abbrev pub room_copies : BlockEvent → ℕ
room_copies (member_removed permanent remaining_seconds room_copy) = if room_copy then 1 else 0
room_copies user_unblocked = 0

pub fresh_mirrored :
    (user at : ℕ) (e : BlockEvent) (m : Mirror)
    → ((apply_fresh answers user at e m).key ≡ m.key)
      × ((apply_fresh answers user at e m).blocks user ≡ mirrored at e)
unfolding write_block delete_block
fresh_mirrored user at (member_removed permanent remaining_seconds room_copy) m =
    (refl, ground arith)
fresh_mirrored user at user_unblocked m = (refl, ground arith)

pub mirror_step :
    (user at version : ℕ) (e : BlockEvent) (m : Mirror)
    → let m' = apply_block_event answers answers user at (some version) e m in
      let r = accept_if_not_older answers at m.key version version_ttl_seconds in
      (m'.key ≡ r.0) × (m'.blocks user ≡ (if r.1 then mirrored at e else m.blocks user))
unfolding apply_block_event
mirror_step user at version e m =
    let r = accept_if_not_older answers at m.key version version_ttl_seconds in
    let (k, b) = fresh_mirrored user at e (record m { key = r.0 }) in
    elim (Bool-cases r.1) [
      | inl fresh ↦ rw (apply_block_event, fresh) (k, b)
      | inr stale ↦ rw (apply_block_event, stale) (refl, refl)
    ]

pair_eq {ℓ κ} :
    {A : Type ℓ} {B : Type κ} {a a' : A} {b b' : B}
    → a ≡ a'
    → b ≡ b'
    → ◌≡◌ {A = A × B} (a, b) (a', b')
pair_eq e f = rw (e, f) refl

mirror_refines :
    (user : ℕ) (xs : List (Arrival BlockEvent)) (m : Mirror)
    → let m' = apply_block_events user xs m in
      let r = apply_all version_ttl_seconds (m.key, m.blocks user) (all_mirrored xs) in
      (m'.key ≡ r.0) × (m'.blocks user ≡ r.1)
unfolding apply_block_events apply_all
mirror_refines user [] m = (refl, refl)
mirror_refines user (x ∷ xs) m =
    let m' : Mirror = apply_block_event answers answers user x.at (some x.version) x.value m in
    let r = accept_if_not_older answers x.at m.key x.version version_ttl_seconds in
    let step = mirror_step user x.at x.version x.value m in
    let same = pair_eq {A = Key} {B = Option Expiry} step.0 step.1 in
    let m'' : Mirror = apply_block_events user xs m' in
    subst
      (λ (p : Key × Option Expiry).
        (m''.key ≡ (apply_all version_ttl_seconds p (all_mirrored xs)).0)
        × (m''.blocks user ≡ (apply_all version_ttl_seconds p (all_mirrored xs)).1))
      same (mirror_refines user xs m')

-- However blocks and unblocks of a user are reordered on their way, the mirror ends as the newest of
-- them leaves it, with the expiry that its own arrival gives it. This holds of events that have a
-- version and arrive within a TTL of a marker that is there, while Redis answers every call and no
-- event of the user is guarded between the guard and the write of another.
pub apply_block_events-latest :
    (user from v : ℕ) (xs : List (Arrival BlockEvent)) (m : Mirror) (marker : Marker)
    → m.key ≡ some marker
    → marker.version ≡ some v
    → from + version_ttl_seconds * 1000 ≤ marker.deadline
    → InWindow version_ttl_seconds from (all_mirrored xs)
    → (apply_block_events user xs m).blocks user ≡ latest v (m.blocks user) (all_mirrored xs)
apply_block_events-latest user from v xs m marker k e le w =
    let latest_wins =
      apply_all-latest version_ttl_seconds from v (m.blocks user) marker (all_mirrored xs) e le w in
    (mirror_refines user xs m).1 ∙ rw k latest_wins.0

-- A block or an unblock that is older than what has been applied does nothing: it neither changes the
-- mirror nor ejects the user; a block that is not ejects the user on the room's copy, and only there,
-- whatever becomes of the mirror's write.
pub apply_block_event_lem :
    (write_link : Link) (user now version : ℕ) (e : BlockEvent) (m : Mirror)
    → let fresh = (accept_if_not_older answers now m.key version version_ttl_seconds).1 in
      let m' = apply_block_event answers write_link user now (some version) e m in
      (fresh ≡ false → (m'.blocks ≡ m.blocks) × (m'.ejections ≡ m.ejections))
      × (fresh ≡ true → m'.ejections ≡ m.ejections + room_copies e)
unfolding apply_block_event
apply_block_event_lem write_link user now version e m =
    let r = accept_if_not_older answers now m.key version version_ttl_seconds in
    elim (Bool-cases r.1) [
      | inl fresh ↦ rw (apply_block_event, fresh) ((λ h. absurd (ground arith)), λ h. copies e)
      | inr stale ↦ rw (apply_block_event, stale) ((λ h. (refl, refl)), λ h. absurd (ground arith))
    ]
  where
    copies :
        (e : BlockEvent)
        → (apply_fresh write_link user now e (record m {
          key = (accept_if_not_older answers now m.key version version_ttl_seconds).0;
        })).ejections
          ≡ m.ejections + room_copies e
    copies (member_removed permanent remaining_seconds room_copy) = refl
    copies user_unblocked = omega arith
