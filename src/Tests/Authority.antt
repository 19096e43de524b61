-- ===== src/Tests/Authority.antt =====
-- A room of user 1 with the admins 2 and 3, whose owner Laravel said at 1000.
use mediasoup_socket_io_audi.Prelude.{ℕ, ◌≡◌, ◌⊎◌, refl, List, [], ◌∷◌, Option, none, some}
use mediasoup_socket_io_audi.Authority.Caches.{admin, fetch_room_owner, prune_owner}
use mediasoup_socket_io_audi.Authority.Freshness.{
  Change, fetches, prunes, change, change_all, Said, fetch_room_owner_lem,
}
use mediasoup_socket_io_audi.Authority.Verify.{
  World, auth_check_failed, verify_room_moderation_target, verify_room_moderation_target_lem,
}

abbrev history : List (ℕ × Change)
history = (1000, fetches (some 1)) ∷ (2000, prunes) ∷ []

fetch_room_owner_lem_example : (◌≡◌ {A = Option ℕ} none (some 1)) ⊎ Said 1 5000 history
unfolding fetch_room_owner change_all change prune_owner
fetch_room_owner_lem_example = (fetch_room_owner_lem 5000 none history).0 1 refl

abbrev outage : World
outage = record {
  now = 40000;
  owner_entry = none;
  roles = [];
  owner_answer = none;
  role_answer = λ u. some admin;
}

verify_room_moderation_target_lem_example :
    (verify_room_moderation_target outage 2 1).1 ≡ auth_check_failed
unfolding fetch_room_owner
verify_room_moderation_target_lem_example = (verify_room_moderation_target_lem outage 2 1).0 refl
