-- ===== src/Seat/Vip.antt =====
-- src/domains/seat/vip.guard.ts over the sockets of this instance and of the others.
use mediasoup_socket_io_audi.Prelude.{
  ℕ, ◌≡◌, refl, List, [], ◌∷◌, Option, none, some, Bool, true, leb, ◌==◌, has, if◌then◌else◌,
  Option-cases, inl, inr, arith,
}

abbrev pub vip_anti_mute_min_level : ℕ
vip_anti_mute_min_level = 4

abbrev pub vip_anti_kick_min_level : ℕ
vip_anti_kick_min_level = 5

-- A socket as fetchSockets answers it.
pub record RemoteSocket : Type 0 where
  pub user : Option ℕ
  pub vip_level : Option ℕ

-- What the repository of sockets answers for a user, the `vip_level` of the sockets of this instance
-- that have a user, and what fetchSockets answers for some ids, `none` where it throws.
pub record Sockets : Type 0 where
  pub socket_ids : ℕ → List ℕ
  pub here : ℕ → Option (Option ℕ)
  pub fetch_sockets : List ℕ → Option (List RemoteSocket)

-- `socket?.data?.user?.vip_level`
abbrev pub level_of : Option (Option ℕ) → Option ℕ
level_of none = none
level_of (some level) = level

abbrev pub or_else : Option ℕ → Option ℕ → Option ℕ
or_else (some level) rest = some level
or_else none rest = rest

-- The fast path.
unfoldable pub local_level : (ℕ → Option (Option ℕ)) → List ℕ → Option ℕ
local_level here [] = none
local_level here (i ∷ ids) = or_else (level_of (here i)) (local_level here ids)

abbrev pub level_for : ℕ → RemoteSocket → Option ℕ
level_for target rs = elim rs.user [
  | none ↦ none
  | some user ↦ if user == target then rs.vip_level else none
]

-- The slow path.
unfoldable pub remote_level : ℕ → List RemoteSocket → Option ℕ
remote_level target [] = none
remote_level target (rs ∷ sockets) = or_else (level_for target rs) (remote_level target sockets)

abbrev pub fetched_level : ℕ → Option (List RemoteSocket) → Option ℕ
fetched_level target none = none
fetched_level target (some sockets) = remote_level target sockets

abbrev pub or_zero : Option ℕ → ℕ
or_zero none = 0
or_zero (some level) = level

abbrev pub level_through : Sockets → ℕ → List ℕ → ℕ
level_through s target [] = 0
level_through s target (i ∷ ids) =
    or_zero
      (or_else (local_level s.here (i ∷ ids)) (fetched_level target (s.fetch_sockets (i ∷ ids))))

-- getTargetVipLevel
unfoldable pub get_target_vip_level : Sockets → ℕ → ℕ
get_target_vip_level s target = level_through s target (s.socket_ids target)

-- isVipAntiMuteProtected
unfoldable pub is_vip_anti_mute_protected : Sockets → ℕ → Bool
is_vip_anti_mute_protected s target = leb vip_anti_mute_min_level (get_target_vip_level s target)

-- isVipAntiKickProtected
unfoldable pub is_vip_anti_kick_protected : Sockets → ℕ → Bool
is_vip_anti_kick_protected s target = leb vip_anti_kick_min_level (get_target_vip_level s target)

abbrev pub set_level : ℕ → Option (Option ℕ) → Option (Option ℕ)
set_level level none = none
set_level level (some old) = some (some level)

-- syncVipLevelOnSockets, with the repository of sockets.
unfoldable pub sync_vip_level_on_sockets : Sockets → ℕ → ℕ → Sockets
sync_vip_level_on_sockets s user level = record s {
  here = λ i. if has i (s.socket_ids user) then set_level level (s.here i) else s.here i;
}

local_level-synced :
    (here : ℕ → Option (Option ℕ)) (level : ℕ) (all ids : List ℕ)
    → ((i : ℕ) → has i ids ≡ true → has i all ≡ true)
    → (i : ℕ) (old : Option ℕ) → has i ids ≡ true
    → here i ≡ some old
    → local_level (λ j. if has j all then set_level level (here j) else here j) ids ≡ some level
unfolding local_level
local_level-synced here level all [] sub i old h e = ground arith
local_level-synced here level all (j ∷ ids) sub i old h e =
    let in_all : has j all ≡ true = sub j (ground arith) in
    elim (Option-cases (here j)) [
      | inl absent ↦
          rw (in_all, absent)
            (local_level-synced here level all ids (λ k g. sub k (ground arith)) i old
              (ground arith) e)
      | inr (l, present) ↦ rw (in_all, present) refl
    ]

level_through_lem :
    (s : Sockets) (target i level : ℕ) (ids : List ℕ)
    → has i ids ≡ true
    → local_level s.here ids ≡ some level
    → level_through s target ids ≡ level
level_through_lem s target i level [] h e = ground arith
level_through_lem s target i level (j ∷ ids) h e = rw e refl

-- The level that a sync writes is the one that the guards read, if the user has a socket here.
pub get_target_vip_level-sync_vip_level_on_sockets :
    (s : Sockets) (user level i : ℕ) (old : Option ℕ)
    → has i (s.socket_ids user) ≡ true
    → s.here i ≡ some old
    → get_target_vip_level (sync_vip_level_on_sockets s user level) user ≡ level
unfolding get_target_vip_level sync_vip_level_on_sockets
get_target_vip_level-sync_vip_level_on_sockets s user level i old h e =
    level_through_lem (sync_vip_level_on_sockets s user level) user i level (s.socket_ids user) h
      (local_level-synced s.here level (s.socket_ids user) (s.socket_ids user) (λ k g. g) i old h e)
