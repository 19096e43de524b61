-- ===== src/Tests/Clients.antt =====
-- The client manager with socket 1 in room 9.
use mediasoup_socket_io_audi.Prelude.{◌≡◌, refl, [], ◌∷◌, some, true, has, map, arith}
use mediasoup_socket_io_audi.Prelude.Redis.{hget, hset}
use mediasoup_socket_io_audi.Clients.Manager.{
  User, ClientData, ClientManager, added, add_client, remove_client, set_client_room, set_room,
  get_clients_in_room, new_client, moved,
}
use mediasoup_socket_io_audi.Clients.Index.{Inv, room_of, is_room}
use mediasoup_socket_io_audi.Clients.Sessions.{
  connect, join, History, start, next, History-Inv, get_clients_in_room-eq, remove_client_lem,
  add_client_ghost,
}

abbrev user : User
user = record { id = 7; name = 70; avatar = 71 }

abbrev lobby : ClientManager
lobby = record { clients = (1, new_client 0 user) ∷ []; room_clients = []; allocations = 1 }

abbrev joined : ClientManager
joined = set_client_room lobby 1 9

lobby-History : History lobby
unfolding hget hset add_client
lobby-History = next start (connect 1 user lobby refl refl)

joined-History : History joined
joined-History = next lobby-History (join 1 9)

History-Inv_example : Inv joined
History-Inv_example = History-Inv joined-History

joined-Inv : Inv joined
joined-Inv = History-Inv joined-History

get_clients_in_room-eq_run :
    has 1 (map (λ e. e.0) (get_clients_in_room joined 9))
    ≡ is_room (room_of (hget 1 joined.clients)) 9
get_clients_in_room-eq_run = get_clients_in_room-eq joined 1 9 joined-Inv

abbrev client : ClientData
client = moved (new_client 0 user) (some 9)

client_at : hget 1 joined.clients ≡ some client
unfolding set_client_room set_room hget hset
client_at = refl

abbrev reconnected : ClientManager
reconnected = record {
  clients = hset 1 (new_client 1 user) joined.clients;
  room_clients = joined.room_clients;
  allocations = 2;
}

reconnects : add_client joined 1 (some user) ≡ added reconnected
unfolding add_client set_client_room set_room hget
reconnects = refl

remove_client_lem_run : remove_client reconnected 1 (some 0) ≡ reconnected
remove_client_lem_run =
    (remove_client_lem joined 1 client user reconnected joined-Inv client_at reconnects).0

in_room_9 : room_of (hget 1 joined.clients) ≡ some 9
in_room_9 = ground (arith, client_at)

add_client_ghost_run : has 1 (map (λ e. e.0) (get_clients_in_room reconnected 9)) ≡ true
add_client_ghost_run =
    (add_client_ghost joined 1 9 user reconnected joined-Inv in_room_9 reconnects).1
