-- ===== src/Room/AutoClose.antt =====
-- The automatic closing of rooms: src/domains/room/auto-close. Rooms are numbers.
use mediasoup_socket_io_audi.Prelude.{
  ℕ, ◌+◌, List, [], ◌∷◌, ◌++◌, Option, none, some, Bool, true, false, leb, ◌==◌, not, ◌&&◌,
  if◌then◌else◌, take, has, ◌%◌,
}
use mediasoup_socket_io_audi.Mode.Controller.{RoomMode, interactive, is_broadcast}
use mediasoup_socket_io_audi.Room.Presence.{observe}

-- MAX_PRESENCE_CHECKS_PER_SWEEP and ORPHAN_SWEEP_EVERY.
abbrev pub max_presence_checks : ℕ
max_presence_checks = 50

abbrev pub orphan_sweep_every : ℕ
orphan_sweep_every = 10

pub record AutoCloseInput : Type 0 where
  pub interactive_present : ℕ
  pub speaker_count : ℕ
  pub mode : RoomMode
  pub activity_expired : Bool
  pub zero_since : Option ℕ
  pub now : ℕ
  pub grace_ms : ℕ

-- isAlive
abbrev pub is_alive : AutoCloseInput → Bool
is_alive i =
    if leb 1 i.interactive_present then true else is_broadcast i.mode && leb 1 i.speaker_count

abbrev pub grace_over : ℕ → ℕ → Option ℕ → Bool
grace_over now grace_ms none = false
grace_over now grace_ms (some since) = leb (since + grace_ms) now

-- shouldClose
unfoldable pub should_close : AutoCloseInput → Bool
should_close i =
    if is_alive i
    then false
    else (if not i.activity_expired then false else grace_over i.now i.grace_ms i.zero_since)

-- What the reply to EXISTS says: an error, or whether the key is there.
pub data Exists : Type 0 where
  failed : Exists
  found : Bool → Exists

-- filterActivityExpired: a room whose EXISTS fails is kept out.
unfoldable pub filter_activity_expired : (ℕ → Exists) → List ℕ → List ℕ
filter_activity_expired activity [] = []
filter_activity_expired activity (room ∷ rooms) =
    let rest = filter_activity_expired activity rooms in
    elim (activity room) [ failed ↦ rest | found there ↦ if there then rest else room ∷ rest ]

-- The rooms that are not local and that nobody owns.
unfoldable pub orphans_of : (ℕ → Exists) → List ℕ → List ℕ → List ℕ
orphans_of owner local [] = []
orphans_of owner local (room ∷ rooms) =
    let rest = orphans_of owner local rooms in
    if has room local
    then rest
    else elim (owner room) [ failed ↦ rest | found there ↦ if there then rest else room ∷ rest ]

-- What one sweep reads: the rooms of this instance and those that SCAN finds, the activity and owner
-- keys, and what the presence check of a room answers, `none` where it fails: the count and the time
-- at which the tracker observes it.
pub record Fleet : Type 0 where
  pub local : List ℕ
  pub scanned : List ℕ
  pub activity : ℕ → Exists
  pub owner : ℕ → Exists
  pub presence : ℕ → Option (ℕ × ℕ)

-- getOwnedScopeCandidates, with the number of this sweep, and getFleetScanCandidates.
unfoldable pub get_candidates : Bool → ℕ → Fleet → List ℕ
get_candidates affinity_enabled sweep_count f =
    if not affinity_enabled
    then filter_activity_expired f.activity f.scanned
    else (if not (sweep_count % orphan_sweep_every == 0)
        then filter_activity_expired f.activity f.local
        else filter_activity_expired f.activity f.local
          ++ orphans_of f.owner f.local (filter_activity_expired f.activity f.scanned))

abbrev pub Trackers : Type 0
Trackers = ℕ → Option ℕ

abbrev pub input_of : ℕ → ℕ → ℕ → Option ℕ → AutoCloseInput
input_of now grace_ms count zero_since = record {
  interactive_present = count;
  speaker_count = 0;
  mode = interactive;
  activity_expired = true;
  zero_since = zero_since;
  now = now;
  grace_ms = grace_ms;
}

abbrev pub observed : Trackers → ℕ → ℕ × ℕ → Trackers
observed z room (count, at) r = if room == r then observe (z r) count at else z r

abbrev pub closable : ℕ → ℕ → Option ℕ → ℕ × ℕ → Bool
closable now grace_ms zero_since (count, at) =
    should_close (input_of now grace_ms count (observe zero_since count at))

-- The presence confirm of each candidate.
unfoldable pub confirm : ℕ → ℕ → (ℕ → Option (ℕ × ℕ)) → Trackers → List ℕ → Trackers × List ℕ
confirm now grace_ms presence z [] = (z, [])
confirm now grace_ms presence z (room ∷ rooms) = elim (presence room) [
  | none ↦ confirm now grace_ms presence z rooms
  | some check ↦
      (let (z', inactive) = confirm now grace_ms presence (observed z room check) rooms in
        (z', if closable now grace_ms (z room) check then room ∷ inactive else inactive))
]

-- getInactiveRoomIds
unfoldable pub get_inactive : Bool → ℕ → ℕ → ℕ → Fleet → Trackers → Trackers × List ℕ
get_inactive affinity_enabled sweep_count now grace_ms f z =
    confirm now grace_ms f.presence z
      (take max_presence_checks (get_candidates affinity_enabled sweep_count f))
