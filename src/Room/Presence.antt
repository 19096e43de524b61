-- ===== src/Room/Presence.antt =====
-- `PresenceTracker` of src/domains/room/presence-tracker.ts for one room: since when it has been seen
-- empty. What the Socket.IO adapter answers is an argument.
use mediasoup_socket_io_audi.Prelude.{ℕ, Option, none, some, Bool, ltb, if◌then◌else◌}
use mediasoup_socket_io_audi.Room.State.{StateKey, reconcile_participant_count}

-- The sockets of this instance, `none` where the read fails, and those of all instances.
pub record Adapter : Type 0 where
  pub local : Option ℕ
  pub fleet : ℕ

abbrev pub local_or : Option ℕ → ℕ → ℕ
local_or none fleet = fleet
local_or (some n) fleet = if ltb 0 n then n else fleet

-- present
unfoldable pub present : Bool → Adapter → ℕ
present affinity_enabled a = if affinity_enabled then local_or a.local a.fleet else a.fleet

abbrev pub or_now : Option ℕ → ℕ → Option ℕ
or_now none now = some now
or_now (some t) now = some t

-- observe
unfoldable pub observe : Option ℕ → ℕ → ℕ → Option ℕ
observe zero_since count now = if ltb 0 count then none else or_now zero_since now

-- What reconcile changes: the room's key and the tracker.
pub record Tracked : Type 0 where
  pub key : StateKey
  pub zero_since : Option ℕ

-- reconcile, with the count that `present` found.
unfoldable pub reconcile : Tracked → ℕ → ℕ → Tracked
reconcile t count now = record {
  key = (reconcile_participant_count t.key count now).0;
  zero_since = observe t.zero_since count now;
}
