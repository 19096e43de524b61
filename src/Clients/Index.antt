-- ===== src/Clients/Index.antt =====
-- The room index of src/client/clientManager.ts against the clients' own rooms.
use mediasoup_socket_io_audi.Prelude.{
  ℕ, ◌<◌, ◌≡◌, ◌≢◌, refl, List, [], ◌∷◌, Option, none, some, Bool, false, ◌==◌, if◌then◌else◌,
  arith, has, ◌&&◌, ◌||◌, not, Bool-cases, Option-cases, inl, inr,
}
use mediasoup_socket_io_audi.Prelude.Redis.{
  Hash, hget, hset, hdel, sadd, srem, hget-hset, hget-hdel, has-sadd, has-srem,
}
use mediasoup_socket_io_audi.Clients.Manager.{
  ClientData, ClientManager, leave_index, enter_index, moved, members, drop_from, remove_entry,
  set_room, clear_room, is_expected,
}

-- The index lists the socket in the room.
abbrev pub in_index : Hash (List ℕ) → ℕ → ℕ → Bool
in_index index room sid = has sid (members (hget room index))

abbrev pub room_of : Option ClientData → Option ℕ
room_of none = none
room_of (some c) = c.room_id

abbrev pub is_room : Option ℕ → ℕ → Bool
is_room none room = false
is_room (some r) room = r == room

-- The index lists a socket in a room exactly when the socket's client is in that room, no set of
-- the index is empty, and every client was allocated before.
pub record Inv (m : ClientManager) : Type 0 where
  pub indexed :
      (room sid : ℕ)
      → in_index m.room_clients room sid ≡ is_room (room_of (hget sid m.clients)) room
  pub nonempty : (room : ℕ) → hget room m.room_clients ≢ some []
  pub older :
      (sid : ℕ) (c : ClientData) → hget sid m.clients ≡ some c → c.allocation < m.allocations

in_index-drop_from :
    (index : Hash (List ℕ)) (q sid r s : ℕ) (set : Option (List ℕ))
    → hget q index ≡ set
    → in_index (drop_from index q sid set) r s
      ≡ (if (q == r) && (sid == s) then false else in_index index r s)
unfolding drop_from
in_index-drop_from index q sid r s none e = ground arith
in_index-drop_from index q sid r s (some set) e = dropped (srem sid set) (has-srem s sid set)
  where
    dropped :
        (l : List ℕ)
        → has s l ≡ (not (sid == s) && has s set)
        → in_index (elim l [ [] ↦ hdel q index | x ∷ rest ↦ hset q (x ∷ rest) index ]) r s
          ≡ (if (q == r) && (sid == s) then false else in_index index r s)
    dropped [] h = ground (arith, hget-hdel r q index)
    dropped (x ∷ rest) h = ground (arith, hget-hset r q (x ∷ rest) index)

pub in_index-leave_index :
    (index : Hash (List ℕ)) (room : Option ℕ) (sid r s : ℕ)
    → in_index (leave_index index room sid) r s
      ≡ (if is_room room r && (sid == s) then false else in_index index r s)
unfolding leave_index
in_index-leave_index index none sid r s = refl
in_index-leave_index index (some q) sid r s = in_index-drop_from index q sid r s (hget q index) refl

in_index-enter_index :
    (index : Hash (List ℕ)) (room sid r s : ℕ)
    → in_index (enter_index index room sid) r s
      ≡ (((room == r) && (sid == s)) || in_index index r s)
unfolding enter_index
in_index-enter_index index room sid r s = ground (
  arith,
  hget-hset r room (sadd sid (members (hget room index))) index,
  has-sadd s sid (members (hget room index)),
)

leave_index_nonempty :
    (index : Hash (List ℕ)) (room : Option ℕ) (sid r : ℕ)
    → hget r index ≢ some []
    → hget r (leave_index index room sid) ≢ some []
unfolding leave_index
leave_index_nonempty index none sid r h = h
leave_index_nonempty index (some q) sid r h = dropped (hget q index)
  where
    kept :
        (l : List ℕ)
        → hget r (elim l [ [] ↦ hdel q index | x ∷ rest ↦ hset q (x ∷ rest) index ]) ≢ some []
    kept [] e = ground (arith, hget-hdel r q index)
    kept (x ∷ rest) e = ground (arith, hget-hset r q (x ∷ rest) index)

    dropped : (set : Option (List ℕ)) → hget r (drop_from index q sid set) ≢ some []
    dropped none = unfold drop_from in h
    dropped (some set) = unfold drop_from in kept (srem sid set)

sadd_nonempty : (k : ℕ) (s : List ℕ) → sadd k s ≢ []
unfolding sadd
sadd_nonempty k [] e = cc
sadd_nonempty k (x ∷ s) e = ground arith

pub remove_entry-Inv :
    (m : ClientManager) (sid : ℕ) (expected : Option ℕ) (o : Option ClientData)
    → hget sid m.clients ≡ o
    → Inv m
    → Inv (remove_entry m sid expected o)
unfolding remove_entry
remove_entry-Inv m sid expected none e v = v
remove_entry-Inv m sid expected (some c) e v = elim (Bool-cases (is_expected expected c)) [
  | inl same ↦ rw same (record {
    indexed = λ r s. ground (
      arith,
      in_index-leave_index m.room_clients c.room_id sid r s,
      v.indexed r s,
      hget-hdel s sid m.clients,
    );
    nonempty = λ r. leave_index_nonempty m.room_clients c.room_id sid r (v.nonempty r);
    older = λ s d f. v.older s d (ground (arith, hget-hdel s sid m.clients));
  })
  | inr other ↦ rw other v
]

pub set_room-Inv :
    (m : ClientManager) (sid room : ℕ) (o : Option ClientData)
    → hget sid m.clients ≡ o
    → Inv m
    → Inv (set_room m sid room o)
unfolding set_room
set_room-Inv m sid room none e v = v
set_room-Inv m sid room (some c) e v = record {
  indexed = λ r s. ground (
    arith,
    in_index-enter_index (leave_index m.room_clients c.room_id sid) room sid r s,
    in_index-leave_index m.room_clients c.room_id sid r s,
    v.indexed r s,
    hget-hset s sid (moved c (some room)) m.clients,
  );
  nonempty =
      λ r e. entered r e (leave_index_nonempty m.room_clients c.room_id sid r (v.nonempty r));
  older = λ s d f.
      ground (arith, hget-hset s sid (moved c (some room)) m.clients, v.older s d, v.older s c);
}
  where
    entered :
        (r : ℕ)
        → hget r (enter_index (leave_index m.room_clients c.room_id sid) room sid) ≡ some []
        → hget r (leave_index m.room_clients c.room_id sid) ≢ some []
        → ⊥
    entered r e h =
        unfold enter_index in
        ground (
          arith,
          hget-hset r room
              (sadd sid (members (hget room (leave_index m.room_clients c.room_id sid))))
              (leave_index m.room_clients c.room_id sid),
          sadd_nonempty sid (members (hget room (leave_index m.room_clients c.room_id sid))),
        )

pub clear_room-Inv :
    (m : ClientManager) (sid : ℕ) (o : Option ClientData)
    → hget sid m.clients ≡ o
    → Inv m
    → Inv (clear_room m sid o)
unfolding clear_room
clear_room-Inv m sid none e v = v
clear_room-Inv m sid (some c) e v = elim (Option-cases c.room_id) [
  | inl out ↦ rw (out, clear_room) v
  | inr (q, at) ↦
      rw (at, clear_room)
        (record {
          indexed = λ r s. ground (
            arith,
            in_index-leave_index m.room_clients (some q) sid r s,
            v.indexed r s,
            hget-hset s sid (moved c none) m.clients,
          );
          nonempty = λ r. leave_index_nonempty m.room_clients (some q) sid r (v.nonempty r);
          older = λ s d f.
              ground (arith, hget-hset s sid (moved c none) m.clients, v.older s d, v.older s c);
        })
]
