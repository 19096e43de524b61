-- ===== src/Router/Crossing.antt =====
-- Two events of one user that cross: what src/integrations/laravel/event-router.ts mirrors if another
-- instance handles a newer block or unblock between the guard and the write of an older one.
use mediasoup_socket_io_audi.Prelude.{
  ℕ, ◌+◌, ◌*◌, ◌<◌, ◌≡◌, ◌∙◌, ap, refl, some, Bool, true, false, arith, ltb,
}
use mediasoup_socket_io_audi.Prelude.Redis.{answers}
use mediasoup_socket_io_audi.Ingest.Ordering.{Key, Marker, accept_if_not_older, written}
use mediasoup_socket_io_audi.Ingest.Versions.{accept_live}
use mediasoup_socket_io_audi.Router.Mirror.{
  version_ttl_seconds, BlockEvent, Mirror, guard_block_event, write_block_event, apply_block_event,
  mirrored, fresh_mirrored, mirror_step,
}

accepted_key :
    (now version ttl : ℕ) (k : Key)
    → (accept_if_not_older answers now k version ttl).1 ≡ true
    → (accept_if_not_older answers now k version ttl).0 ≡ written now ttl version
unfolding accept_if_not_older
accepted_key now version ttl k h = ground arith

-- A newer version is let through after an older one.
accepted_newer :
    (at at' v v' : ℕ) (k : Key)
    → v < v'
    → at' < at + version_ttl_seconds * 1000
    → k ≡ written at version_ttl_seconds v
    → accept_if_not_older answers at' k v' version_ttl_seconds
      ≡ (written at' version_ttl_seconds v', true)
accepted_newer at at' v v' k lt within e =
    let marker : Marker = record { version = some v; deadline = at + version_ttl_seconds * 1000 } in
    let older : ltb v' v ≡ false = ground arith in
    rw e (accept_live at' v v' version_ttl_seconds marker refl within ∙ rw older refl)

-- If a newer event of the user is guarded and written between the guard and the write of an older one
-- that the guard has let pass, the mirror ends as the older leaves it, though the marker holds the
-- version of the newer. So a user whose unblock crosses his block stays blocked.
pub write_block_event-crossing :
    (user at at' at'' v v' : ℕ) (older newer : BlockEvent) (m : Mirror)
    → v < v'
    → at' < at + version_ttl_seconds * 1000
    → (guard_block_event answers at (some v) m).1 ≡ true
    → let m1 = (guard_block_event answers at (some v) m).0 in
      let m2 = apply_block_event answers answers user at' (some v') newer m1 in
      let m3 = write_block_event answers user at'' older true m2 in
      (m2.blocks user ≡ mirrored at' newer)
      × (m3.blocks user ≡ mirrored at'' older)
      × (m3.key ≡ written at' version_ttl_seconds v')
write_block_event-crossing user at at' at'' v v' older newer m lt within fresh =
    let m1 = (guard_block_event answers at (some v) m).0 in
    let m2 = apply_block_event answers answers user at' (some v') newer m1 in
    let passed =
      accepted_newer at at' v v' m1.key lt within
        (accepted_key at v version_ttl_seconds m.key fresh) in
    let (key, blocks) = mirror_step user at' v' newer m1 in
    let (key', blocks') = fresh_mirrored user at'' older m2 in
    (blocks ∙ rw passed refl, blocks', key' ∙ (key ∙ ap (λ (r : Key × Bool). r.0) passed))
