-- ===== src/Tests/Ingest.antt =====
-- The guards of the ingest: a version key that holds 10, and an unclaimed event.
use mediasoup_socket_io_audi.Prelude.{
  ℕ, ◌≤◌, ◌≡◌, refl, List, [], ◌∷◌, none, some, true, false, arith, ◌↔◌,
}
use mediasoup_socket_io_audi.Prelude.Redis.{answers}
use mediasoup_socket_io_audi.Ingest.Ordering.{Marker, stored_version, write_if_newer}
use mediasoup_socket_io_audi.Ingest.Versions.{
  Arrival, apply_all, apply_all-latest, write_if_newer_lem,
}
use mediasoup_socket_io_audi.Ingest.Dedup.{Claims, claim_event, deliveries, claim_once}

abbrev marker : Marker
marker = record { version = some 10; deadline = 60000 }

-- The stale event, of version 5, arrives last.
abbrev arrivals : List (Arrival ℕ)
arrivals =
    record { at = 100; version = 20; value = 2 } ∷ record { at = 200; version = 5; value = 1 } ∷ []

apply_all-latest_run : (apply_all 60 (some marker, 0) arrivals).1 ≡ 2
apply_all-latest_run =
    (apply_all-latest 60 0 10 0 marker arrivals refl (omega arith)
      (omega arith, omega arith, (omega arith, omega arith, tt))).0

write_if_newer_lem_run :
    ((write_if_newer answers 100 (some marker) 10 60).1 ≡ false)
    ↔ ((v : ℕ) × (stored_version 100 (some marker) ≡ some v) × (10 ≤ v))
write_if_newer_lem_run = (write_if_newer_lem 100 200 10 60 (some marker)).0

abbrev no_claims : Claims
no_claims key = none

claim_once_run :
    deliveries no_claims 3 60 (100 ∷ 200 ∷ [])
    ≡ true ∷ deliveries (claim_event answers no_claims 3 100 60).0 3 60 (200 ∷ [])
claim_once_run = (claim_once no_claims 3 60 100 500 (200 ∷ []) refl (omega arith, tt)).0
