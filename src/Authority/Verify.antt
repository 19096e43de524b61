-- ===== src/Authority/Verify.antt =====
-- The three tiers of authorization of src/domains/seat/seat.owner.ts.
use mediasoup_socket_io_audi.Prelude.{
  ℕ, ◌≡◌, ◌≢◌, ◌==◌, ◌⊎◌, Option, none, some, Bool, true, false, not, if◌then◌else◌, arith,
  Option-cases, inl, inr,
}
use mediasoup_socket_io_audi.Authority.Caches.{
  OwnerEntry, Role, RoleCache, manages, fetch_room_owner, can_manage_room,
}

pub data AuthResult : Type 0 where
  allowed not_authorized auth_check_failed : AuthResult

-- The caches, and what Laravel answers for the room's owner and for the role of a user; each check
-- happens at one time.
pub record World : Type 0 where
  pub now : ℕ
  pub owner_entry : OwnerEntry
  pub roles : RoleCache
  pub owner_answer : Option ℕ
  pub role_answer : ℕ → Option Role

-- withAuthCheck, of what the check returns; `none` where it throws.
abbrev pub with_auth_check : Option Bool → AuthResult
with_auth_check none = auth_check_failed
with_auth_check (some true) = allowed
with_auth_check (some false) = not_authorized

abbrev pub fetched : World → World × Option ℕ
fetched w =
    let (entry, found) = fetch_room_owner w.now w.owner_answer w.owner_entry in
    (record w { owner_entry = entry }, found)

-- canManageRoom, with users as keys.
abbrev pub managed : World → ℕ → World × Bool
managed w user =
    let (roles, can) = can_manage_room w.now user (w.role_answer user) w.roles in
    (record w { roles = roles }, can)

abbrev pub owns : ℕ → Option ℕ → Option Bool
owns requester none = none
owns requester (some o) = some (requester == o)

-- verifyRoomOwner
unfoldable pub verify_room_owner : World → ℕ → World × AuthResult
verify_room_owner w requester =
    let (w', found) = fetched w in (w', with_auth_check (owns requester found))

-- verifyRoomManager; canManageRoom does not throw.
unfoldable pub verify_room_manager : World → ℕ → World × AuthResult
verify_room_manager w requester =
    let (w', can) = managed w requester in (w', with_auth_check (some can))

-- The check of a requester who is not the owner.
abbrev pub moderates : World → ℕ → ℕ → ℕ → World × Bool
moderates w requester target o =
    let (w', can) = managed w requester in
    (
      w',
      if not can
          then false
          else (if requester == target
              then true
              else (if target == o then false else not (manages (w'.role_answer target)))),
    )

abbrev pub moderates_as : World → ℕ → ℕ → Option ℕ → World × Option Bool
moderates_as w requester target none = (w, none)
moderates_as w requester target (some o) =
    if requester == o
    then (w, some true)
    else (let (w', b) = moderates w requester target o in (w', some b))

-- verifyRoomModerationTarget
unfoldable pub verify_room_moderation_target : World → ℕ → ℕ → World × AuthResult
verify_room_moderation_target w requester target =
    let (w', found) = fetched w in
    let (w'', b) = moderates_as w' requester target found in (w'', with_auth_check b)

-- The owner may act on anyone. Who else may act on another member manages the room, and that member is
-- neither its owner nor known to be an admin; everyone who manages the room may act on himself. If the
-- owner cannot be found out, nobody may act on anyone.
pub verify_room_moderation_target_lem :
    (w : World) (requester target : ℕ)
    → let found = (fetch_room_owner w.now w.owner_answer w.owner_entry).1 in
      let can = (can_manage_room w.now requester (w.role_answer requester) w.roles).1 in
      let r = (verify_room_moderation_target w requester target).1 in
      (found ≡ none → r ≡ auth_check_failed)
      × (found ≡ some requester → r ≡ allowed)
      × ((o : ℕ)
          → found ≡ some o
          → requester ≢ o
          → r ≡ allowed
          → (can ≡ true)
            × ((requester ≡ target) ⊎ ((target ≢ o) × (manages (w.role_answer target) ≡ false))))
      × ((o : ℕ) → found ≡ some o → can ≡ true → requester ≡ target → r ≡ allowed)
unfolding verify_room_moderation_target
verify_room_moderation_target_lem w requester target =
    elim (Option-cases (fetch_room_owner w.now w.owner_answer w.owner_entry).1) [
      | inl unknown ↦ ground arith
      | inr (o, known) ↦ ground arith
    ]
