-- ===== src/Tests/Registry.antt =====
-- The room registry with room 1 held by instance 5.
use mediasoup_socket_io_audi.Prelude.{
  ℕ, ◌≡◌, refl, List, [], ◌∷◌, Option, none, some, true, false, if◌then◌else◌, ◌==◌, arith,
}
use mediasoup_socket_io_audi.Registry.Ownership.{Owners, OwnerCache, live, is_owner}
use mediasoup_socket_io_audi.Registry.Lease.{
  Command, claim, refresh, run_commands, HoldsUntil, claim_exclusive,
}
use mediasoup_socket_io_audi.Registry.Cache.{IsSound, is_owner_staleness}
use mediasoup_socket_io_audi.Registry.Origin.{Registry, get_origin, absent, cleanup, cleanup_lem}

abbrev no_owners : Owners
no_owners room = none

abbrev owners : Owners
owners room = if room == 1 then some (record { holder = 5; deadline = 90000 }) else none

abbrev empty_cache : OwnerCache
empty_cache room = none

abbrev rivals : List (ℕ × Command)
rivals = (1000, claim 1 6) ∷ (2000, refresh 1 6 true) ∷ (3000, refresh 1 5 false) ∷ []

claim_exclusive_example : HoldsUntil (run_commands owners rivals).0 1 5 90000
claim_exclusive_example =
    (claim_exclusive owners 1 5 90000 rivals
      (record { holder = 5; deadline = 90000 }, refl, refl, omega arith)
      (omega arith, omega arith, (omega arith, omega arith, (omega arith, omega arith, tt)))).0

-- Room 1 was instance 5's until 90000.
abbrev owner_at : ℕ → ℕ → Option ℕ
owner_at t room = live t (owners room)

is_owner_staleness_run : IsSound owner_at 1000 (is_owner owners empty_cache 1 5 1000).0
is_owner_staleness_run =
    (is_owner_staleness owner_at owners empty_cache 1 5 1000 (λ room e h. cc) (λ r. refl)).0

abbrev registry : Registry
registry = record {
  owners = owners;
  origins = λ room. none;
  edges = λ room. none;
  cache = empty_cache;
}

cleanup_lem_run : get_origin (cleanup registry 1) 1 10 ≡ absent
cleanup_lem_run = (cleanup_lem registry 1 2 5 10 no_owners 20).1
