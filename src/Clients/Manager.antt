-- ===== src/Clients/Manager.antt =====
-- `ClientManager` of src/client/clientManager.ts. A `Map` is an association list; a `Set` of socket
-- ids is a list without repetitions. Ids are numbers, so the empty room id, which the source treats
-- like none, does not occur. The time of joining and the device, which no operation reads, are
-- left out.
use mediasoup_socket_io_audi.Prelude.{
  ℕ, suc, List, [], ◌∷◌, Option, none, some, Bool, true, false, ◌==◌, if◌then◌else◌,
}
use mediasoup_socket_io_audi.Prelude.Redis.{Hash, hget, hset, hdel, sadd, srem}

-- The user's profile: its name and avatar, as far as a profile update can replace them.
pub record User : Type 0 where
  pub id : ℕ
  pub name : ℕ
  pub avatar : ℕ

-- A `Partial<User>`: what is absent stays.
pub record Profile : Type 0 where
  pub new_name : Option ℕ
  pub new_avatar : Option ℕ

-- `allocation` tells two objects of the same socket apart, as `===` does.
pub record ClientData : Type 0 where
  pub allocation : ℕ
  pub user_id : ℕ
  pub user : User
  pub room_id : Option ℕ
  pub is_speaker : Bool
  pub producers : Hash ℕ
  pub consumers : Hash ℕ
  pub transports : Hash ℕ

pub record ClientManager : Type 0 where
  pub clients : Hash ClientData
  pub room_clients : Hash (List ℕ)
  pub allocations : ℕ

abbrev pub no_clients : ClientManager
no_clients = record { clients = []; room_clients = []; allocations = 0 }

pub data Added : Type 0 where
  added : ClientManager → Added
  missing_user : Added

abbrev pub new_client : ℕ → User → ClientData
new_client allocation user = record {
  allocation = allocation;
  user_id = user.id;
  user = user;
  room_id = none;
  is_speaker = false;
  producers = [];
  consumers = [];
  transports = [];
}

-- addClient: throws when the handshake left no user.
unfoldable pub add_client : ClientManager → ℕ → Option User → Added
add_client m sid none = missing_user
add_client m sid (some user) = added (record {
  clients = hset sid (new_client m.allocations user) m.clients;
  room_clients = m.room_clients;
  allocations = suc m.allocations;
})

unfoldable pub drop_from : Hash (List ℕ) → ℕ → ℕ → Option (List ℕ) → Hash (List ℕ)
drop_from index room sid none = index
drop_from index room sid (some set) = elim (srem sid set) [
  | [] ↦ hdel room index
  | x ∷ rest ↦ hset room (x ∷ rest) index
]

-- Deleting a socket from its room's set, and an empty set from the index.
unfoldable pub leave_index : Hash (List ℕ) → Option ℕ → ℕ → Hash (List ℕ)
unfolding drop_from
leave_index index none sid = index
leave_index index (some room) sid = drop_from index room sid (hget room index)

abbrev pub members : Option (List ℕ) → List ℕ
members none = []
members (some set) = set

unfoldable pub enter_index : Hash (List ℕ) → ℕ → ℕ → Hash (List ℕ)
enter_index index room sid = hset room (sadd sid (members (hget room index))) index

unfoldable pub is_expected : Option ℕ → ClientData → Bool
is_expected none c = true
is_expected (some allocation) c = c.allocation == allocation

unfoldable pub remove_entry : ClientManager → ℕ → Option ℕ → Option ClientData → ClientManager
remove_entry m sid expected none = m
remove_entry m sid expected (some c) =
    if is_expected expected c
    then record m {
      clients = hdel sid m.clients;
      room_clients = leave_index m.room_clients c.room_id sid;
    }
    else m

-- removeClient, with the allocation of the object that the caller captured, if it captured one.
unfoldable pub remove_client : ClientManager → ℕ → Option ℕ → ClientManager
unfolding remove_entry is_expected
remove_client m sid expected = remove_entry m sid expected (hget sid m.clients)

-- The reset of the mediasoup tracking, with the room that the client is in from then on.
abbrev pub moved : ClientData → Option ℕ → ClientData
moved c room = record c {
  room_id = room;
  is_speaker = false;
  producers = [];
  consumers = [];
  transports = [];
}

unfoldable pub set_room : ClientManager → ℕ → ℕ → Option ClientData → ClientManager
set_room m sid room none = m
set_room m sid room (some c) = record m {
  clients = hset sid (moved c (some room)) m.clients;
  room_clients = enter_index (leave_index m.room_clients c.room_id sid) room sid;
}

-- setClientRoom
unfoldable pub set_client_room : ClientManager → ℕ → ℕ → ClientManager
unfolding set_room
set_client_room m sid room = set_room m sid room (hget sid m.clients)

unfoldable pub clear_room : ClientManager → ℕ → Option ClientData → ClientManager
clear_room m sid none = m
clear_room m sid (some c) = elim c.room_id [
  | none ↦ m
  | some room ↦ record m {
    clients = hset sid (moved c none) m.clients;
    room_clients = leave_index m.room_clients (some room) sid;
  }
]

-- clearClientRoom
unfoldable pub clear_client_room : ClientManager → ℕ → ClientManager
unfolding clear_room
clear_client_room m sid = clear_room m sid (hget sid m.clients)

unfoldable pub cons_client : Option ClientData → ℕ → List (ℕ × ClientData) → List (ℕ × ClientData)
cons_client none sid rest = rest
cons_client (some c) sid rest = (sid, c) ∷ rest

unfoldable pub lookup_all : Hash ClientData → List ℕ → List (ℕ × ClientData)
lookup_all clients [] = []
lookup_all clients (sid ∷ set) = cons_client (hget sid clients) sid (lookup_all clients set)

-- getClientsInRoom, each client with its socket id.
unfoldable pub get_clients_in_room : ClientManager → ℕ → List (ℕ × ClientData)
unfolding lookup_all cons_client
get_clients_in_room m room = lookup_all m.clients (members (hget room m.room_clients))

ids_of_user : ℕ → List (ℕ × ClientData) → List ℕ
ids_of_user user_id [] = []
ids_of_user user_id ((sid, c) ∷ cs) =
    if c.user_id == user_id then sid ∷ ids_of_user user_id cs else ids_of_user user_id cs

-- getSocketIdsByUserInRoom
unfoldable pub get_socket_ids_by_user_in_room : ClientManager → ℕ → ℕ → List ℕ
unfolding get_clients_in_room ids_of_user
get_socket_ids_by_user_in_room m user_id room = ids_of_user user_id (get_clients_in_room m room)

or_old : Option ℕ → ℕ → ℕ
or_old none old = old
or_old (some new) old = new

merge : User → Profile → User
merge user profile = record user {
  name = or_old profile.new_name user.name;
  avatar = or_old profile.new_avatar user.avatar;
}

add_room : Option ℕ → List ℕ → List ℕ
add_room none rooms = rooms
add_room (some room) rooms = sadd room rooms

-- updateUserProfile: the profiles of all sockets of the user, and the rooms that they are in.
unfoldable pub update_profiles : Hash ClientData → ℕ → Profile → Hash ClientData × List ℕ
unfolding merge or_old add_room
update_profiles [] user_id profile = ([], [])
update_profiles ((sid, c) ∷ cs) user_id profile =
    let (cs', rooms) = update_profiles cs user_id profile in
    if c.user_id == user_id
    then ((sid, record c { user = merge c.user profile }) ∷ cs', add_room c.room_id rooms)
    else ((sid, c) ∷ cs', rooms)

unfoldable pub update_user_profile : ClientManager → ℕ → Profile → ClientManager × List ℕ
unfolding update_profiles
update_user_profile m user_id profile =
    let (cs, rooms) = update_profiles m.clients user_id profile in
    (record m { clients = cs }, rooms)

user_ids : Hash ClientData → List ℕ
user_ids [] = []
user_ids ((sid, c) ∷ cs) = sadd c.user_id (user_ids cs)

-- getConnectedUserIds
unfoldable pub get_connected_user_ids : ClientManager → List ℕ
unfolding user_ids
get_connected_user_ids m = user_ids m.clients
