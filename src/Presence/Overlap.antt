-- ===== src/Presence/Overlap.antt =====
-- A connect and a disconnect of src/domains/presence/presence.service.ts that overlap: each is several
-- commands of Redis, and those of the other can come between them.
use mediasoup_socket_io_audi.Prelude.{
  ℕ, suc, ◌<◌, ◌≡◌, refl, List, [], ◌∷◌, none, some, Bool, true, false, arith,
}
use mediasoup_socket_io_audi.Prelude.Int.{ℤ, pos}
use mediasoup_socket_io_audi.Presence.Connections.{
  Presence, incr, decr, expire, is_one, at_most_zero, emit_if, emit_transition, snapshot,
}

-- The counter and the updates, the sockets that are connected, the counts that connects have read
-- whose EXPIRE is to come, and the disconnects whose DEL is to come.
pub record Play : Type 0 where
  pub presence : Presence
  pub sockets : ℕ
  pub connecting : List ℤ
  pub deleting : ℕ

-- The commands, which all run at about `now`.
pub data Step (ttl now : ℕ) (p : Play) : Play → Type 0 where
  connect_incr : Step ttl now p (record p {
    presence = record p.presence { key = some (incr now p.presence.key) };
    sockets = suc p.sockets;
    connecting = (incr now p.presence.key).count ∷ p.connecting;
  })
  connect_expire :
      (count : ℤ) (rest : List ℤ)
      → p.connecting ≡ count ∷ rest
      → Step ttl now p (record p {
        presence =
            emit_if (is_one count) true (record p.presence { key = expire ttl now p.presence.key });
        connecting = rest;
      })
  disconnect_decr :
      (n : ℕ)
      → p.sockets ≡ suc n
      → at_most_zero (decr now p.presence.key).count ≡ false
      → Step ttl now p (record p {
        presence = record p.presence { key = some (decr now p.presence.key) };
        sockets = n;
      })
  last_disconnect_decr :
      (n : ℕ)
      → p.sockets ≡ suc n
      → at_most_zero (decr now p.presence.key).count ≡ true
      → Step ttl now p (record p {
        presence = record p.presence { key = some (decr now p.presence.key) };
        sockets = n;
        deleting = suc p.deleting;
      })
  disconnect_del :
      (n : ℕ)
      → p.deleting ≡ suc n
      → Step ttl now p (record p {
        presence = emit_transition false (record p.presence { key = none });
        deleting = n;
      })

infixr 40 ◌then◌
pub data Steps (ttl now : ℕ) : Play → Play → Type 0 where
  done : {p : Play} → Steps ttl now p p
  ◌then◌ : {p q r : Play} → Step ttl now p q → Steps ttl now q r → Steps ttl now p r

abbrev pub connected : ℕ → List Bool → Play
connected deadline updates = record {
  presence = record {
    key = some (record { count = pos 1; deadline = some deadline });
    updates = updates;
  };
  sockets = 1;
  connecting = [];
  deleting = 0;
}

-- A user whose one socket drops and who connects again before the DEL of the disconnect has run can end
-- up connected, with nothing under way, and yet with no counter and told to be offline: DECR and DEL are
-- two commands, and the INCR between them is deleted.
pub offline_while_connected :
    (ttl now deadline : ℕ) (updates : List Bool)
    → now < deadline
    → (q : Play) × Steps ttl now (connected deadline updates) q
      × (q.sockets ≡ 1)
      × (q.connecting ≡ [])
      × (q.deleting ≡ 0)
      × (snapshot now q.presence ≡ false)
      × (q.presence.updates ≡ false ∷ true ∷ updates)
unfolding incr decr expire
offline_while_connected ttl now deadline updates lt = (
  _,
  last_disconnect_decr 0 refl (ground arith)
      then connect_incr
      then connect_expire (pos 1) [] (ground arith)
      then disconnect_del 0 refl
      then done,
  refl,
  refl,
  refl,
  refl,
  refl,
)
