-- ===== src/Room/Blocks.antt =====
-- `RoomBlockRepository` of src/domains/room/room-block.repository.ts: the mirror of the users that
-- are blocked from a room, one key for each. A duration is an integer number of seconds. How TTL
-- rounds the milliseconds that remain to seconds is a parameter.
use mediasoup_socket_io_audi.Prelude.{
  ℕ, ◌+◌, ◌*◌, ◌-◌, ◌≡◌, ◌≢◌, ◌↔◌, Option, none, some, Bool, true, false, ltb, if◌then◌else◌, arith,
  max,
}
use mediasoup_socket_io_audi.Prelude.Int.{ℤ, pos, negsuc}
use mediasoup_socket_io_audi.Prelude.Redis.{Link, answers, fails, answer_lost, update}

-- A key that never expires, or the time at which it does.
pub data Expiry : Type 0 where
  never : Expiry
  expires : (deadline : ℕ) → Expiry

-- `room:{id}:blocked:{user}` for the users of one room.
abbrev pub Blocks : Type 0
Blocks = ℕ → Option Expiry

-- A write either resolves or rejects.
pub data Settled : Type 0 where
  resolved rejected : Settled

-- `Math.max(1, Math.floor(remainingSeconds))`
abbrev pub ttl_seconds : ℤ → ℕ
ttl_seconds (pos n) = max 1 n
ttl_seconds (negsuc n) = 1

abbrev pub expiry_of : ℕ → Option ℤ → Expiry
expiry_of now none = never
expiry_of now (some remaining) = expires (now + ttl_seconds remaining * 1000)

-- writeBlock
unfoldable pub write_block : Link → Blocks → ℕ → Option ℤ → ℕ → Blocks × Settled
write_block answers b u remaining now = (update b u (some (expiry_of now remaining)), resolved)
write_block fails b u remaining now = (b, rejected)
write_block answer_lost b u remaining now = (update b u (some (expiry_of now remaining)), rejected)

-- deleteBlock
unfoldable pub delete_block : Link → Blocks → ℕ → Blocks × Settled
delete_block answers b u = (update b u none, resolved)
delete_block fails b u = (b, rejected)
delete_block answer_lost b u = (update b u none, rejected)

pub record BlockStatus : Type 0 where
  pub blocked : Bool
  pub permanent : Bool
  pub remaining_seconds : Option ℕ

-- The answers of TTL: -2, -1 and a number of seconds.
pub data TtlReply : Type 0 where
  absent persistent : TtlReply
  seconds : ℕ → TtlReply

-- `ROOM_BLOCK_FAIL_OPEN !== false`
abbrev pub fail_open : Option Bool → Bool
fail_open none = true
fail_open (some b) = b

abbrev pub status_of : TtlReply → BlockStatus
status_of absent = record { blocked = false; permanent = false; remaining_seconds = none }
status_of persistent = record { blocked = true; permanent = true; remaining_seconds = none }
status_of (seconds n) = record { blocked = true; permanent = false; remaining_seconds = some n }

abbrev pub fallback_status : Option Bool → BlockStatus
fallback_status setting = record {
  blocked = if fail_open setting then false else true;
  permanent = false;
  remaining_seconds = none;
}

module _ (to_seconds : ℕ → ℕ) where
  -- TTL of a key.
  abbrev pub ttl : ℕ → Option Expiry → TtlReply
  ttl now none = absent
  ttl now (some never) = persistent
  ttl now (some (expires deadline)) =
      if ltb now deadline then seconds (to_seconds (deadline - now)) else absent

  -- getStatus, with the setting of the fail policy, if it is set.
  unfoldable pub get_status : Link → Blocks → ℕ → Option Bool → ℕ → BlockStatus
  get_status answers b u setting now = status_of (ttl now (b u))
  get_status fails b u setting now = fallback_status setting
  get_status answer_lost b u setting now = fallback_status setting

  -- Whether a mirrored block still stands.
  abbrev pub stands : ℕ → ℕ → Option ℤ → Bool
  stands now later none = true
  stands now later (some remaining) = ltb later (now + ttl_seconds remaining * 1000)

  -- A mirrored block keeps the user out until the duration has passed, for ever if it has none, and
  -- at least for a second; then, and after an unblock, the user is let in. Other users are not
  -- affected, and without an answer of Redis the user is let in unless the policy is set to refuse.
  pub write_block_lem :
      (b : Blocks) (u w now later : ℕ) (remaining : Option ℤ) (setting : Option Bool)
      → let c = (write_block answers b u remaining now).0 in
        ((get_status answers c u setting later).blocked ≡ stands now later remaining)
        × ((get_status answers c u setting (now + 999)).blocked ≡ true)
        × ((get_status answers (delete_block answers c u).0 u setting later).blocked ≡ false)
        × (u ≢ w → get_status answers c w setting later ≡ get_status answers b w setting later)
        × (((get_status fails c u setting later).blocked ≡ true) ↔ (setting ≡ some false))
  unfolding write_block get_status delete_block
  write_block_lem b u w now later none setting =
      (ground arith, ground arith, ground arith, λ ne. ground arith, ground arith)
  write_block_lem b u w now later (some (pos n)) setting =
      (ground arith, ground arith, ground arith, λ ne. ground arith, ground arith)
  write_block_lem b u w now later (some (negsuc n)) setting =
      (ground arith, ground arith, ground arith, λ ne. ground arith, ground arith)
