-- ===== src/Registry/Origin.antt =====
-- The origin's address and the edges of src/domains/room/room-registry.ts (registerOrigin,
-- getOrigin, removeEdge, getEdges) and its cleanup. A stored text that `JSON.parse` refuses is
-- `none`, and so is a listener count that is no number.
use mediasoup_socket_io_audi.Prelude.{
  ℕ, ◌+◌, ◌≡◌, ◌≢◌, ◌<◌, true, false, List, [], ◌∷◌, Option, none, some, ltb, if◌then◌else◌, arith,
}
use mediasoup_socket_io_audi.Prelude.Redis.{Hash, hdel, update}
use mediasoup_socket_io_audi.Registry.Ownership.{
  Owners, OwnerCache, is_owner, get_owner, claim_ownership,
}

-- TTL_SECONDS, in milliseconds.
abbrev pub origin_ttl_ms : ℕ
origin_ttl_ms = 86400000

pub record InstanceInfo : Type 0 where
  pub instance_id : ℕ
  pub ip : ℕ
  pub port : ℕ
  pub listener_count : Option ℕ

abbrev pub Stored : Type 0
Stored = Option InstanceInfo

-- The three keys of each room, and the cache of the instance at work.
pub record Registry : Type 0 where
  pub owners : Owners
  pub origins : ℕ → Option (Stored × ℕ)
  pub edges : ℕ → Option (Hash Stored)
  pub cache : OwnerCache

-- What `JSON.parse` makes of a reply: nothing stored, a value, or an exception.
pub data Parsed {ℓ} (A : Type ℓ) : Type ℓ where
  absent : Parsed A
  parsed : A → Parsed A
  throws : Parsed A

abbrev read_origin : ℕ → Option (Stored × ℕ) → Option Stored
read_origin now none = none
read_origin now (some (text, deadline)) = if ltb now deadline then some text else none

-- The count of a readable earlier value wins; anything else leaves the caller's.
merged_count : Option Stored → Option ℕ → Option ℕ
merged_count none count = count
merged_count (some none) count = count
merged_count (some (some prev)) count = elim prev.listener_count [ none ↦ count | some n ↦ some n ]

-- registerOrigin
unfoldable pub register_origin : Registry → ℕ → InstanceInfo → ℕ → Registry
unfolding merged_count
register_origin r room info now = record r {
  origins = update r.origins room (
      some (
        some (record info {
          listener_count = merged_count (read_origin now (r.origins room)) info.listener_count;
        }),
        now + origin_ttl_ms,
      ));
}

parse : Option Stored → Parsed InstanceInfo
parse none = absent
parse (some none) = throws
parse (some (some info)) = parsed info

-- getOrigin
unfoldable pub get_origin : Registry → ℕ → ℕ → Parsed InstanceInfo
unfolding parse
get_origin r room now = parse (read_origin now (r.origins room))

-- removeEdge
unfoldable pub remove_edge : Registry → ℕ → ℕ → Registry
remove_edge r room instance_id = record r {
  edges =
      update r.edges room
        (elim (r.edges room) [ none ↦ none | some h ↦ some (hdel instance_id h) ]);
}

cons_parsed : InstanceInfo → Parsed (List InstanceInfo) → Parsed (List InstanceInfo)
cons_parsed info (parsed rest) = parsed (info ∷ rest)
cons_parsed info absent = absent
cons_parsed info throws = throws

parse_all : Hash Stored → Parsed (List InstanceInfo)
parse_all [] = parsed []
parse_all ((k, none) ∷ h) = throws
parse_all ((k, some info) ∷ h) = cons_parsed info (parse_all h)

-- getEdges: HGETALL of a missing key is empty.
unfoldable pub get_edges : Registry → ℕ → Parsed (List InstanceInfo)
unfolding parse_all cons_parsed
get_edges r room = elim (r.edges room) [ none ↦ parsed [] | some h ↦ parse_all h ]

-- cleanup
unfoldable pub cleanup : Registry → ℕ → Registry
cleanup r room = record r {
  owners = update r.owners room none;
  origins = update r.origins room none;
  edges = update r.edges room none;
  cache = update r.cache room none;
}

-- Registering twice keeps the listener count of the first registration and takes the address of
-- the second, as long as the first has not expired.
pub register_origin-register_origin :
    (r : Registry) (room : ℕ) (a b : InstanceInfo) (n t t' : ℕ)
    → get_origin r room t ≡ absent
    → a.listener_count ≡ some n
    → t' < t + origin_ttl_ms
    → get_origin (register_origin (register_origin r room a t) room b t') room t'
      ≡ parsed (record b { listener_count = some n })
unfolding get_origin register_origin
register_origin-register_origin r room a b n t t' fresh count lt = ground arith

-- After a cleanup the room has no owner, no origin and no edges at any time, nobody's cached read
-- of it survives at this instance, the next claim wins, and no other room is touched.
pub cleanup_lem :
    (r : Registry) (room other instance_id now : ℕ) (later : Owners) (now' : ℕ)
    → let q = cleanup r room in
      (get_owner q.owners room now ≡ none)
      × (get_origin q room now ≡ absent)
      × (get_edges q room ≡ parsed [])
      × ((is_owner q.owners q.cache room instance_id now).1 ≡ false)
      × ((claim_ownership q.owners room instance_id now later now').1.won ≡ true)
      × (room ≢ other
          → (get_owner q.owners other now ≡ get_owner r.owners other now)
            × (get_origin q other now ≡ get_origin r other now)
            × (get_edges q other ≡ get_edges r other)
            × ((is_owner q.owners q.cache other instance_id now).1
                ≡ (is_owner r.owners r.cache other instance_id now).1))
unfolding cleanup get_owner get_origin get_edges is_owner claim_ownership
cleanup_lem r room other instance_id now later now' = (
  ground arith,
  ground arith,
  ground arith,
  ground arith,
  ground arith,
  λ ne. (ground arith, ground arith, ground arith, ground arith),
)
