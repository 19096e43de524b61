-- ===== src/Clients/Sessions.antt =====
-- Histories of connections, joins and disconnects over src/client/clientManager.ts.
use mediasoup_socket_io_audi.Prelude.{
  ℕ, suc, ◌<◌, ◌≡◌, refl, List, [], ◌∷◌, Option, none, some, true, false, map, arith, has,
  Option-cases, inl, inr, sym, ◌∙◌, subst, ==_refl,
}
use mediasoup_socket_io_audi.Prelude.Redis.{Hash, hget, hset, hdel, hget-hset, hget-hdel}
use mediasoup_socket_io_audi.Clients.Manager.{
  User, ClientData, ClientManager, no_clients, added, new_client, add_client, leave_index,
  remove_client, set_client_room, clear_client_room, get_clients_in_room, members, lookup_all,
  cons_client, is_expected,
}
use mediasoup_socket_io_audi.Clients.Index.{
  in_index, room_of, is_room, Inv, remove_entry-Inv, set_room-Inv, clear_room-Inv,
  in_index-leave_index,
}

-- What happens to the manager; a socket connects that is not yet known.
pub data Step (m : ClientManager) : ClientManager → Type 0 where
  connect :
      (sid : ℕ) (u : User) (n : ClientManager)
      → hget sid m.clients ≡ none
      → add_client m sid (some u) ≡ added n
      → Step m n
  disconnect : (sid : ℕ) (expected : Option ℕ) → Step m (remove_client m sid expected)
  join : (sid room : ℕ) → Step m (set_client_room m sid room)
  leave : (sid : ℕ) → Step m (clear_client_room m sid)

pub data History : ClientManager → Type 0 where
  start : History no_clients
  next : {m n : ClientManager} → History m → Step m n → History n

added-injective : {m n : ClientManager} → added m ≡ added n → m ≡ n
added-injective e = cc

abbrev connected : ClientManager → ℕ → User → ClientManager
connected m sid u = record {
  clients = hset sid (new_client m.allocations u) m.clients;
  room_clients = m.room_clients;
  allocations = suc m.allocations;
}

connected_lem :
    (m : ClientManager) (sid : ℕ) (u : User) (n : ClientManager)
    → add_client m sid (some u) ≡ added n
    → connected m sid u ≡ n
unfolding add_client
connected_lem m sid u n e = added-injective e

connect-Inv :
    (m : ClientManager) (sid : ℕ) (u : User)
    → hget sid m.clients ≡ none
    → Inv m
    → Inv (connected m sid u)
connect-Inv m sid u new v = record {
  indexed =
      λ r s. ground (arith, hget-hset s sid (new_client m.allocations u) m.clients, v.indexed r s);
  nonempty = v.nonempty;
  older =
      λ s c f. ground (arith, hget-hset s sid (new_client m.allocations u) m.clients, v.older s c);
}

Step-Inv : {m n : ClientManager} → Step m n → Inv m → Inv n
Step-Inv {m} (connect sid u n new e) v =
    subst Inv (connected_lem m sid u n e) (connect-Inv m sid u new v)
Step-Inv {m} (disconnect sid expected) v =
    unfold remove_client in remove_entry-Inv m sid expected (hget sid m.clients) refl v
Step-Inv {m} (join sid room) v =
    unfold set_client_room in set_room-Inv m sid room (hget sid m.clients) refl v
Step-Inv {m} (leave sid) v =
    unfold clear_client_room in clear_room-Inv m sid (hget sid m.clients) refl v

-- After every history of connections of new sockets, joins, leaves and disconnects the room index
-- lists a socket in a room exactly when its client is in that room, and keeps no empty set.
pub History-Inv : {m : ClientManager} → History m → Inv m
History-Inv start =
    unfold hget in record { indexed = λ r s. refl; nonempty = λ r e. cc; older = λ s c e. cc }
History-Inv (next r st) = Step-Inv st (History-Inv r)

has-lookup_all :
    (clients : Hash ClientData) (sid : ℕ) (set : List ℕ) (c : ClientData)
    → hget sid clients ≡ some c
    → has sid (map (λ e. e.0) (lookup_all clients set)) ≡ has sid set
unfolding lookup_all cons_client
has-lookup_all clients sid [] c e = refl
has-lookup_all clients sid (x ∷ set) c e = elim (Option-cases (hget x clients)) [
  | inl out ↦ rw (out, cons_client) (ground (arith, has-lookup_all clients sid set c e))
  | inr (d, at) ↦ rw (at, cons_client) (ground (arith, has-lookup_all clients sid set c e))
]

lookup_all_absent :
    (clients : Hash ClientData) (sid : ℕ) (set : List ℕ)
    → hget sid clients ≡ none
    → has sid (map (λ e. e.0) (lookup_all clients set)) ≡ false
unfolding lookup_all cons_client
lookup_all_absent clients sid [] e = refl
lookup_all_absent clients sid (x ∷ set) e = elim (Option-cases (hget x clients)) [
  | inl out ↦ rw (out, cons_client) (lookup_all_absent clients sid set e)
  | inr (d, at) ↦ rw (at, cons_client) (ground (arith, lookup_all_absent clients sid set e))
]

-- The clients listed for a room are exactly those that are in it.
pub get_clients_in_room-eq :
    (m : ClientManager) (sid room : ℕ)
    → Inv m
    → has sid (map (λ e. e.0) (get_clients_in_room m room))
      ≡ is_room (room_of (hget sid m.clients)) room
unfolding get_clients_in_room
get_clients_in_room-eq m sid room v = elim (Option-cases (hget sid m.clients)) [
  | inl out ↦ rw out (lookup_all_absent m.clients sid (members (hget room m.room_clients)) out)
  | inr (c, at) ↦
      has-lookup_all m.clients sid (members (hget room m.room_clients)) c at ∙ v.indexed room sid
]

remove_replaced :
    (m : ClientManager) (sid : ℕ) (c : ClientData) (u : User)
    → c.allocation < m.allocations
    → remove_client (connected m sid u) sid (some c.allocation) ≡ connected m sid u
unfolding remove_client
remove_replaced m sid c u lt =
    ground (arith, hget-hset sid sid (new_client m.allocations u) m.clients)

remove_current :
    (m : ClientManager) (sid : ℕ) (c : ClientData) (expected : Option ℕ)
    → hget sid m.clients ≡ some c
    → is_expected expected c ≡ true
    → remove_client m sid expected ≡ record m {
      clients = hdel sid m.clients;
      room_clients = leave_index m.room_clients c.room_id sid;
    }
unfolding remove_client
remove_current m sid c expected at same = ground arith

-- A disconnect that captured an object which a new connection of the same socket has replaced
-- changes nothing; one that captured the current object, or none, removes the client and takes it
-- out of every room.
pub remove_client_lem :
    (m : ClientManager) (sid : ℕ) (c : ClientData) (u : User) (n : ClientManager)
    → Inv m
    → hget sid m.clients ≡ some c
    → add_client m sid (some u) ≡ added n
    → (remove_client n sid (some c.allocation) ≡ n)
      × ((room : ℕ)
          → (hget sid (remove_client m sid (some c.allocation)).clients ≡ none)
            × (in_index (remove_client m sid (some c.allocation)).room_clients room sid ≡ false))
      × (remove_client m sid none ≡ remove_client m sid (some c.allocation))
unfolding is_expected
remove_client_lem m sid c u n v at e = (
  subst (λ x. remove_client x sid (some c.allocation) ≡ x) (connected_lem m sid u n e)
      (remove_replaced m sid c u (v.older sid c at)),
  (λ room. rw (remove_current m sid c (some c.allocation) at (==_refl c.allocation)) (
    ground (arith, hget-hdel sid sid m.clients),
    ground (arith, in_index-leave_index m.room_clients c.room_id sid room sid, v.indexed room sid),
  )),
  remove_current m sid c none at refl
      ∙ sym (remove_current m sid c (some c.allocation) at (==_refl c.allocation)),
)

-- A connection that reuses the id of a socket which is in a room makes a client in no room, yet the
-- room still lists it.
pub add_client_ghost :
    (m : ClientManager) (sid room : ℕ) (u : User) (n : ClientManager)
    → Inv m
    → room_of (hget sid m.clients) ≡ some room
    → add_client m sid (some u) ≡ added n
    → (room_of (hget sid n.clients) ≡ none)
      × (has sid (map (λ e. e.0) (get_clients_in_room n room)) ≡ true)
add_client_ghost m sid room u n v at e =
    subst
      (λ x.
        (room_of (hget sid x.clients) ≡ none)
        × (has sid (map (λ e. e.0) (get_clients_in_room x room)) ≡ true))
      (connected_lem m sid u n e)
      (ground (arith, hget-hset sid sid (new_client m.allocations u) m.clients), listed)
  where
    listed : has sid (map (λ e. e.0) (get_clients_in_room (connected m sid u) room)) ≡ true
    listed =
        unfold get_clients_in_room in
        has-lookup_all (connected m sid u).clients sid (members (hget room m.room_clients))
          (new_client m.allocations u)
          (ground (arith, hget-hset sid sid (new_client m.allocations u) m.clients))
        ∙ ground (arith, v.indexed room sid)
