-- ===== src/Router/Route.antt =====
-- `EventRouter.route` of src/integrations/laravel/event-router.ts: where an event goes, which instance
-- emits it, and the work that follows. The Socket.IO server is an argument.
use mediasoup_socket_io_audi.Prelude.{
  ℕ, List, [], ◌∷◌, Option, none, some, Bool, true, false, leb, ◌&&◌, length, if◌then◌else◌,
}
use mediasoup_socket_io_audi.Prelude.Redis.{Link}
use mediasoup_socket_io_audi.Ingest.Dedup.{Claims, claim_event, release_claim}
use mediasoup_socket_io_audi.Ingest.Envelope.{LaravelEvent, dedup_ttl_seconds}

pub data EventTarget : Type 0 where
  to_user : ℕ → EventTarget
  to_user_in_room : ℕ → ℕ → EventTarget
  to_room : ℕ → EventTarget
  broadcast : EventTarget

abbrev pub target_of : Option ℕ → Option ℕ → EventTarget
target_of (some u) (some r) = to_user_in_room u r
target_of none (some r) = to_room r
target_of (some u) none = to_user u
target_of none none = broadcast

-- determineTarget
unfoldable pub determine_target : LaravelEvent → EventTarget
determine_target e = target_of e.user_id e.room_id

-- The events of RELAY_EVENTS that the router itself acts on; all others are only relayed.
pub data Kind : Type 0 where
  vip_updated profile_updated revoke_tokens force_disconnect room_updated room_force_close : Kind
  app_slide_play room_member_removed room_user_unblocked relayed unknown : Kind

-- What the router has done beside the emit, on this instance.
pub data Work : Type 0 where
  sync_vip : ℕ → Work
  sync_profile : ℕ → Work
  write_revocation : ℕ → Work
  disconnect_user : ℕ → Work
  sync_room_settings : ℕ → Work
  force_close : ℕ → Work
  record_slide apply_block mirror_unblock : Work

abbrev pub for_id : (ℕ → Work) → Option ℕ → List Work
for_id work none = []
for_id work (some n) = work n ∷ []

abbrev pub if_delivered : Bool → List Work → List Work
if_delivered delivered ws = if delivered then ws else []

-- The side effects after the relay.
unfoldable pub works : Kind → LaravelEvent → Bool → List Work
works vip_updated e delivered = if_delivered delivered (for_id sync_vip e.user_id)
works profile_updated e delivered = for_id sync_profile e.user_id
works revoke_tokens e delivered = for_id write_revocation e.user_id
works force_disconnect e delivered = for_id disconnect_user e.user_id
works room_updated e delivered = if_delivered delivered (for_id sync_room_settings e.room_id)
works room_force_close e delivered = for_id force_close e.room_id
works app_slide_play e delivered =
    if_delivered delivered (elim e.room_id [ none ↦ record_slide ∷ [] | some r ↦ [] ])
works room_member_removed e delivered = apply_block ∷ []
works room_user_unblocked e delivered = mirror_unblock ∷ []
works relayed e delivered = []
works unknown e delivered = []

-- The Socket.IO server: the sockets of a user, as the repository finds them, the local sockets of a
-- room, all local sockets, and whether an emit throws.
pub record Sockets : Type 0 where
  pub of_user : ℕ → List ℕ
  pub in_room : ℕ → ℕ
  pub all_local : ℕ
  pub throws : Bool

pub record EventRoutingResult : Type 0 where
  pub delivered : Bool
  pub target_count : ℕ

abbrev pub to_sockets : List ℕ → EventRoutingResult × ℕ
to_sockets [] = (record { delivered = false; target_count = 0 }, 0)
to_sockets (s ∷ ss) = (record { delivered = true; target_count = length (s ∷ ss) }, 1)

-- emitToUser, emitToRoom and emitToAll, with the number of emits made.
unfoldable pub emit : Sockets → EventTarget → EventRoutingResult × ℕ
emit io (to_user u) = to_sockets (io.of_user u)
emit io (to_user_in_room u r) = to_sockets (io.of_user u)
emit io (to_room r) = (record { delivered = true; target_count = io.in_room r }, 1)
emit io broadcast = (record { delivered = true; target_count = io.all_local }, 1)

-- The fan-out claims, and what this instance has emitted and done.
pub record Done : Type 0 where
  pub claims : Claims
  pub result : EventRoutingResult
  pub emits : ℕ
  pub work : List Work

abbrev pub failed : EventRoutingResult
failed = record { delivered = false; target_count = 0 }

abbrev pub suppressed : EventRoutingResult
suppressed = record { delivered = true; target_count = 0 }

-- The gate of the fleet's one emit; an event with no key is emitted by every instance.
abbrev pub fanout_gate : Link → Claims → Option ℕ → ℕ → Claims × Bool
fanout_gate link claims none now = (claims, true)
fanout_gate link claims (some key) now = claim_event link claims key now dedup_ttl_seconds

abbrev pub give_back : Link → Claims → Option ℕ → Claims
give_back link claims none = claims
give_back link claims (some key) = release_claim link claims key

abbrev pub finished : Kind → LaravelEvent → Claims → EventRoutingResult × ℕ → Done
finished kind e claims (result, n) = record {
  claims = claims;
  result = result;
  emits = n;
  work = works kind e result.delivered;
}

-- The relay: a throw of an emit hands the claim back, and the rest is skipped.
abbrev pub relay :
    Bool → Link → Kind → LaravelEvent → Option ℕ → Claims → EventRoutingResult × ℕ → Done
relay throws release_link kind e key claims (result, n) =
    if throws && leb 1 n
    then record {
      claims = give_back release_link claims key;
      result = failed;
      emits = 0;
      work = [];
    }
    else finished kind e claims (result, n)

-- What follows the gate.
abbrev pub route_known : Sockets → Link → Kind → LaravelEvent → Option ℕ → Claims × Bool → Done
route_known io release_link kind e key (claims, should_emit) =
    if should_emit
    then relay io.throws release_link kind e key claims (emit io (determine_target e))
    else finished kind e claims (suppressed, 0)

abbrev pub rejected : Claims → Done
rejected claims = record { claims = claims; result = failed; emits = 0; work = [] }

-- KNOWN_EVENT_SET
abbrev pub is_known : Kind → Bool
is_known kind = elim kind [ unknown ↦ false | _ ↦ true ]

-- route, with the fan-out key of the event.
unfoldable pub route : Sockets → Link → Link → Kind → LaravelEvent → Option ℕ → ℕ → Claims → Done
route io claim_link release_link kind e key now claims =
    if is_known kind
    then route_known io release_link kind e key (fanout_gate claim_link claims key now)
    else rejected claims
