-- ===== src/Audio/Turns.antt =====
-- Who holds the music slot after each handler of src/domains/audio-player.
use mediasoup_socket_io_audi.Prelude.{
  ℕ, ◌≡◌, ◌≢◌, refl, List, [], ◌∷◌, Option, none, some, Bool, true, false, ◌==◌, if◌then◌else◌,
  arith, Bool-cases, inl, inr, ◌||◌, not, subst, sym,
}
use mediasoup_socket_io_audi.Audio.Queue.{
  Music, hold, holder, grace_ttl_ms, player_ttl_ms, release_and_grant, Walk, drained, grant_head,
  promote_if_free, promote_head, acquire_script, grace_timer,
}
use mediasoup_socket_io_audi.Audio.Player.{
  Event, stopped, turn, Ack, done, emitted, not_authorized, acquire_slot, stop, stop_reply,
}
use mediasoup_socket_io_audi.Audio.Grants.{
  first_live, Served, grant_head-Served, release_and_grant-head,
}
use mediasoup_socket_io_audi.Audio.Waiting.{IsNodup}

-- The slot may be taken: it is free, the caller's, or held by a user with no live socket.
abbrev pub is_free : (ℕ → Bool) → ℕ → Option ℕ → Bool
is_free is_live me none = true
is_free is_live me (some h) = (h == me) || not (is_live h)

-- Acquiring succeeds exactly when the slot is free, the caller's or a dead holder's, and then gives
-- the caller the slot for the full TTL; a denial changes nothing.
pub acquire_slot_lem :
    (m : Music) (is_live : ℕ → Bool) (now me : ℕ)
    → acquire_slot m is_live now me ≡ (
        if is_free is_live me (holder now m.slot)
        then (record m { slot = hold me now player_ttl_ms }, true)
        else (m, false))
unfolding acquire_slot acquire_script
acquire_slot_lem m is_live now me = ground arith

-- What a stop by the holder does: the turn passes to the first live waiter, if there is one.
abbrev pub Passes : ℕ → ℕ → Option (ℕ × List ℕ) → Music × Ack × List Event → Type 0
Passes now u none (m, ack, es) =
    (m.slot ≡ none) × (m.queue ≡ []) × (ack ≡ done) × (es ≡ stopped u ∷ [])
Passes now u (some (g, rest)) (m, ack, es) =
    (holder now m.slot ≡ some g) × (m.queue ≡ rest) × (ack ≡ done) × (es ≡ stopped u ∷ turn g ∷ [])

Passes-of_Served :
    (now u : ℕ) (r : Option (ℕ × List ℕ)) (m : Music) (w : Walk)
    → Served now r (m, w)
    → Passes now u r (m, done, stopped u ∷ emitted w)
Passes-of_Served now u none m w (e, f, g) = (f, g, refl, rw e refl)
Passes-of_Served now u (some (x, rest)) m w (e, f, g) = (f, g, refl, rw e refl)

stop_holder :
    (m : Music) (is_live : ℕ → Bool) (now u : ℕ) (q : List ℕ)
    → m.queue ≡ q
    → holder now m.slot ≡ some u
    → Passes now u (first_live is_live q) (stop m is_live now u)
unfolding stop
stop_holder m is_live now u [] e h = unfold release_and_grant grant_head in ground arith
stop_holder m is_live now u (x ∷ q) e h =
    let m' : Music = record m { slot = hold x now grace_ttl_ms; state = none; queue = q } in
    subst (λ r. Passes now u (first_live is_live (x ∷ q)) (stop_reply is_live now u r))
      (sym (release_and_grant-head m u now x q e h))
      (unfold stop_reply in
        Passes-of_Served now u (first_live is_live (x ∷ q)) (grant_head is_live m' now (some x)).0
          (grant_head is_live m' now (some x)).1
          (grant_head-Served is_live m' now x (ground arith)))

-- Stopping is the holder's alone: anybody else changes nothing. When the holder stops, the turn
-- passes to the first waiter with a live socket, the dead ones before are dropped and those behind
-- keep their order; with no live waiter the slot and the queue are empty.
pub stop_lem :
    (m : Music) (is_live : ℕ → Bool) (now u : ℕ)
    → (holder now m.slot ≢ some u → stop m is_live now u ≡ (m, not_authorized, []))
      × (holder now m.slot ≡ some u
          → Passes now u (first_live is_live m.queue) (stop m is_live now u))
stop_lem m is_live now u =
    (λ ne. unfold stop release_and_grant in ground arith, stop_holder m is_live now u m.queue refl)

-- While a user waits somebody holds the slot, and nobody waits twice.
pub record Inv (now : ℕ) (m : Music) : Type 0 where
  pub distinct : IsNodup m.queue
  pub served : holder now m.slot ≡ none → m.queue ≡ []

pub first_live-IsNodup :
    (is_live : ℕ → Bool) (q : List ℕ) (g : ℕ) (rest : List ℕ)
    → IsNodup q
    → first_live is_live q ≡ some (g, rest)
    → IsNodup rest
first_live-IsNodup is_live [] g rest d e = cc
first_live-IsNodup is_live (x ∷ q) g rest d e = elim (Bool-cases (is_live x)) [
  | inl live ↦ subst IsNodup (ground arith) d.1
  | inr dead ↦ first_live-IsNodup is_live q g rest d.1 (ground arith)
]

Served-Inv :
    (is_live : ℕ → Bool) (now : ℕ) (q : List ℕ) (m : Music) (w : Walk)
    → IsNodup q
    → (r : Option (ℕ × List ℕ)) → first_live is_live q ≡ r
    → Served now r (m, w)
    → Inv now m
Served-Inv is_live now q m w d none e s = record {
  distinct = subst IsNodup (sym s.2) tt;
  served = λ h. s.2;
}
Served-Inv is_live now q m w d (some (g, rest)) e s = record {
  distinct = subst IsNodup (sym s.2) (first_live-IsNodup is_live q g rest d e);
  served = λ h. ground arith;
}

promote_if_free-head :
    (m : Music) (now x : ℕ) (q : List ℕ)
    → holder now m.slot ≡ none
    → m.queue ≡ x ∷ q
    → promote_if_free m now ≡ (record m { slot = hold x now grace_ttl_ms; queue = q }, some x)
unfolding promote_if_free promote_head
promote_if_free-head m now x q e f = ground arith

-- The grace timer serves whatever it finds: afterwards a queue with waiters has a holder again,
-- also when the grace of a silent grantee has run out.
pub grace_timer-Inv :
    (m : Music) (is_live : ℕ → Bool) (now : ℕ)
    → IsNodup m.queue
    → Inv now (grace_timer is_live m now).0
      × ((u : ℕ) → holder now m.slot ≡ some u → grace_timer is_live m now ≡ (m, drained))
unfolding grace_timer
grace_timer-Inv m is_live now d = (
  timer (holder now m.slot) m.queue refl refl,
  λ u h. unfold promote_if_free grant_head in ground arith,
)
  where
    timer :
        (h : Option ℕ) (q : List ℕ)
        → holder now m.slot ≡ h
        → m.queue ≡ q
        → Inv now (grant_head is_live (promote_if_free m now).0 now (promote_if_free m now).1).0
    timer (some u) q e f = unfold promote_if_free grant_head in ground arith
    timer none [] e f = unfold promote_if_free promote_head grant_head in ground arith
    timer none (x ∷ q) e f =
        let m' : Music = record m { slot = hold x now grace_ttl_ms; queue = q } in
        subst (λ (r : Music × Option ℕ). Inv now (grant_head is_live r.0 now r.1).0)
          (sym (promote_if_free-head m now x q e f))
          (Served-Inv is_live now (x ∷ q) (grant_head is_live m' now (some x)).0
            (grant_head is_live m' now (some x)).1 (subst IsNodup f d) (first_live is_live (x ∷ q))
            refl (grant_head-Served is_live m' now x (ground arith)))
