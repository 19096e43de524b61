-- ===== src/Registry/Lease.antt =====
-- The ownership claim as a lease: what every sequence of operations of all instances keeps.
use mediasoup_socket_io_audi.Prelude.{
  ℕ, ◌+◌, ◌≤◌, ◌<◌, ◌≡◌, ◌≢◌, refl, List, [], ◌∷◌, none, some, Bool, true, false, ◌==◌, arith,
  Bool-cases, inl, inr, ◌&&◌,
}
use mediasoup_socket_io_audi.Registry.Ownership.{
  Claim, Owners, OwnerCache, claim_ownership, RefreshResult, held, reclaimed, lost,
  refresh_ownership, owner_ttl_ms,
}

-- A command that an instance runs on the claim of a room.
pub data Command : Type 0 where
  claim : (room instance_id : ℕ) → Command
  refresh : (room instance_id : ℕ) → Bool → Command

abbrev pub caller : Command → ℕ
caller (claim room i) = i
caller (refresh room i b) = i

abbrev pub room_of : Command → ℕ
room_of (claim room i) = room
room_of (refresh room i b) = room

abbrev no_cache : OwnerCache
no_cache room = none

abbrev acquired_by_refresh : RefreshResult → Bool
acquired_by_refresh held = true
acquired_by_refresh reclaimed = true
acquired_by_refresh lost = false

-- One command at a time; the second part says whether its caller may act as the origin.
unfoldable pub run_command : Owners → ℕ → Command → Owners × Bool
run_command os now (claim room i) =
    let (os', r) = claim_ownership os room i now os now in (os', r.won)
run_command os now (refresh room i reclaim) =
    let (os', cache, r) = refresh_ownership os no_cache room i reclaim now in
    (os', acquired_by_refresh r)

-- Commands in the order in which Redis serves them, each with its time; the answers in that order.
unfoldable pub run_commands : Owners → List (ℕ × Command) → Owners × List Bool
run_commands os [] = (os, [])
run_commands os ((now, c) ∷ cs) =
    let (os', ok) = run_command os now c in
    let (os'', oks) = run_commands os' cs in (os'', ok ∷ oks)

-- `a` holds the room until `deadline` at least.
abbrev pub HoldsUntil : Owners → ℕ → ℕ → ℕ → Type 0
HoldsUntil os room a deadline =
    (c : Claim) × (os room ≡ some c) × (c.holder ≡ a) × (deadline ≤ c.deadline)

-- Every command is served before the deadline, and not earlier than one TTL before it.
abbrev pub WithinTtl : ℕ → List (ℕ × Command) → Type 0
WithinTtl deadline [] = Unit {0}
WithinTtl deadline ((now, c) ∷ cs) =
    (now < deadline) × (deadline ≤ now + owner_ttl_ms) × WithinTtl deadline cs

-- No other instance is told that it may act as the origin of the room.
abbrev pub Refused : ℕ → ℕ → List (ℕ × Command) → List Bool → Type 0
Refused room a ((now, c) ∷ cs) (ok ∷ oks) =
    (room_of c ≡ room → caller c ≢ a → ok ≡ false) × Refused room a cs oks
Refused room a cs oks = Unit {0}

run_command-HoldsUntil :
    (os : Owners) (room a deadline now : ℕ) (c : Command)
    → HoldsUntil os room a deadline
    → now < deadline
    → deadline ≤ now + owner_ttl_ms
    → HoldsUntil (run_command os now c).0 room a deadline
      × (room_of c ≡ room → caller c ≢ a → (run_command os now c).1 ≡ false)
unfolding run_command claim_ownership refresh_ownership
run_command-HoldsUntil os room a deadline now (claim r i) (c, at, mine, le) lt near =
    ((c, ground arith, mine, le), λ e ne. ground arith)
run_command-HoldsUntil os room a deadline now (refresh r i reclaim) (c, at, mine, le) lt near = (
  elim (Bool-cases ((r == room) && (i == a))) [
    | inl own ↦ (record { holder = a; deadline = now + owner_ttl_ms }, ground arith, refl, near)
    | inr other ↦ (c, ground arith, mine, le)
  ],
  λ e ne. ground arith,
)

-- A claim is exclusive: in the last TTL before the holder's deadline, whatever claims and refreshes
-- of any room any instances send in any order, every other instance is refused the room, and the
-- holder still holds it until that deadline at least.
pub claim_exclusive :
    (os : Owners) (room a deadline : ℕ) (cs : List (ℕ × Command))
    → HoldsUntil os room a deadline
    → WithinTtl deadline cs
    → HoldsUntil (run_commands os cs).0 room a deadline × Refused room a cs (run_commands os cs).1
unfolding run_commands
claim_exclusive os room a deadline [] h b = (h, tt)
claim_exclusive os room a deadline ((now, c) ∷ cs) h b =
    let (h', r) = run_command-HoldsUntil os room a deadline now c h b.0 b.1 in
    let (h'', rs) = claim_exclusive (run_command os now c).0 room a deadline cs h' b.2 in
    (h'', (r, rs))

-- A claim that is won, and a refresh that is not lost, holds the room for the whole TTL; in
-- particular a holder that refreshes before its deadline keeps the room.
pub acquire-HoldsUntil :
    (os : Owners) (now : ℕ) (c : Command)
    → (run_command os now c).1 ≡ true
    → HoldsUntil (run_command os now c).0 (room_of c) (caller c) (now + owner_ttl_ms)
unfolding run_command claim_ownership refresh_ownership
acquire-HoldsUntil os now (claim room i) ok =
    (record { holder = i; deadline = now + owner_ttl_ms }, ground arith, refl, omega arith)
acquire-HoldsUntil os now (refresh room i reclaim) ok =
    (record { holder = i; deadline = now + owner_ttl_ms }, ground arith, refl, omega arith)

-- Once the deadline has passed the room is free: the next claim wins it whoever sends it, a refresh
-- that may reclaim takes it, and one that may not is lost.
pub expired_claim :
    (os : Owners) (cache : OwnerCache) (room i now : ℕ) (c : Claim)
    → os room ≡ some c
    → c.deadline ≤ now
    → ((run_command os now (claim room i)).1 ≡ true)
      × ((refresh_ownership os cache room i true now).2 ≡ reclaimed)
      × ((refresh_ownership os cache room i false now).2 ≡ lost)
unfolding run_command claim_ownership refresh_ownership
expired_claim os cache room i now c at over = ground arith
