-- ===== src/Audio/Waiters.antt =====
-- The waiting line under every handler of src/domains/audio-player.
use mediasoup_socket_io_audi.Prelude.{
  ℕ, ◌≡◌, ◌≢◌, refl, List, [], ◌∷◌, Option, none, some, Bool, true, false, ◌==◌, if◌then◌else◌,
  arith, Bool-cases, inl, inr, ◌&&◌, not, has, subst, sym, ◌⊎◌,
}
use mediasoup_socket_io_audi.Audio.Queue.{
  Music, holder, enqueue_waiter, enqueue_at, position_of, promote_if_free, grant_head, dequeue,
  grace_timer, is_user,
}
use mediasoup_socket_io_audi.Audio.Player.{
  play, wait_turn, takeover, stop, state_update, leave_queue, on_disconnect, Ack, Event,
}
use mediasoup_socket_io_audi.Audio.Grants.{first_live}
use mediasoup_socket_io_audi.Audio.Waiting.{IsNodup, enqueue_waiter_lem}
use mediasoup_socket_io_audi.Audio.Turns.{
  Inv, is_free, acquire_slot_lem, stop_lem, Passes, first_live-IsNodup, grace_timer-Inv,
}

has-dequeue : (v u : ℕ) (q : List ℕ) → has v (dequeue u q) ≡ (not (u == v) && has v q)
unfolding dequeue
has-dequeue v u [] = ground arith
has-dequeue v u (x ∷ q) = ground (arith, has-dequeue v u q)

dequeue-IsNodup : (u : ℕ) (q : List ℕ) → IsNodup q → IsNodup (dequeue u q)
unfolding dequeue
dequeue-IsNodup u [] d = tt
dequeue-IsNodup u (x ∷ q) d = elim (Bool-cases (x == u)) [
  | inl same ↦ rw same (dequeue-IsNodup u q d.1)
  | inr other ↦ rw other (ground (arith, has-dequeue x u q), dequeue-IsNodup u q d.1)
]

dequeue-Inv : (now u : ℕ) (m : Music) → Inv now m → Inv now (record m { queue = dequeue u m.queue })
dequeue-Inv now u m v = record {
  distinct = dequeue-IsNodup u m.queue v.distinct;
  served = λ h. subst (λ q. dequeue u q ≡ []) (sym (v.served h)) (unfold dequeue in refl);
}

-- A holder serves every line.
held-Inv : (now h : ℕ) (m : Music) → holder now m.slot ≡ some h → IsNodup m.queue → Inv now m
held-Inv now h m e d = record { distinct = d; served = λ f. cc }

slot-enqueue_waiter : (m : Music) (u : ℕ) → (enqueue_waiter m u).0.slot ≡ m.slot
unfolding enqueue_waiter
slot-enqueue_waiter m u = at (position_of u m.queue)
  where
    at : (o : Option ℕ) → (enqueue_at m u o).0.slot ≡ m.slot
    at none = unfold enqueue_at in refl
    at (some n) = unfold enqueue_at in refl

wait_turn-held :
    (m : Music) (is_live : ℕ → Bool) (now u title duration h : ℕ)
    → holder now m.slot ≡ some h
    → (wait_turn m is_live now u title duration).0 ≡ (enqueue_waiter m u).0
unfolding wait_turn promote_if_free grant_head
wait_turn-held m is_live now u title duration h e = ground (arith, slot-enqueue_waiter m u)

wait_turn-Inv :
    (m : Music) (is_live : ℕ → Bool) (now u title duration h : ℕ)
    → holder now m.slot ≡ some h
    → IsNodup m.queue
    → Inv now (wait_turn m is_live now u title duration).0
wait_turn-Inv m is_live now u title duration h e d =
    subst (Inv now) (sym (wait_turn-held m is_live now u title duration h e)) (
      held-Inv now h (enqueue_waiter m u).0 (ground (arith, slot-enqueue_waiter m u))
        (enqueue_waiter_lem m u d).0)

pub play-Inv :
    (m : Music) (is_live : ℕ → Bool) (in_room is_manager : Bool) (now u title duration : ℕ)
    (enqueue : Bool)
    → Inv now m
    → Inv now (play m is_live in_room is_manager now u title duration enqueue).0
unfolding play
play-Inv m is_live false is_manager now u title duration enqueue v = v
play-Inv m is_live true false now u title duration enqueue v = v
play-Inv m is_live true true now u title duration enqueue v =
    elim (Bool-cases (is_free is_live u (holder now m.slot))) [
      | inl free ↦
          rw (acquire_slot_lem m is_live now u, free) (held-Inv now u _ (ground arith) v.distinct)
      | inr taken ↦
          rw (acquire_slot_lem m is_live now u, taken)
            (denied enqueue (holder now m.slot) refl taken)
    ]
  where
    denied :
        (enqueue : Bool) (h : Option ℕ)
        → holder now m.slot ≡ h
        → is_free is_live u (holder now m.slot) ≡ false
        → Inv now
            (if enqueue
              then wait_turn m is_live now u title duration
              else (m, Ack.music_already_playing, [])).0
    denied false h e t = v
    denied true none e t = absurd (ground arith)
    denied true (some h) e t = wait_turn-Inv m is_live now u title duration h e v.distinct

Passes-Inv :
    (now u : ℕ) (q : List ℕ) (is_live : ℕ → Bool) (r : Music × Ack × List Event)
    → IsNodup q
    → (f : Option (ℕ × List ℕ)) → first_live is_live q ≡ f
    → Passes now u f r
    → Inv now r.0
Passes-Inv now u q is_live (m, ack, es) d none e p = record {
  distinct = subst IsNodup (sym p.1) tt;
  served = λ h. p.1;
}
Passes-Inv now u q is_live (m, ack, es) d (some (g, rest)) e p =
    held-Inv now g m p.0 (subst IsNodup (sym p.1) (first_live-IsNodup is_live q g rest d e))

is_holder : (o : Option ℕ) (u : ℕ) → (o ≡ some u) ⊎ (o ≢ some u)
is_holder none u = inr (λ e. cc)
is_holder (some h) u = elim (Bool-cases (h == u)) [
  | inl same ↦ inl (ground arith)
  | inr other ↦ inr (λ e. ground arith)
]

stop-Inv :
    (m : Music) (is_live : ℕ → Bool) (now u : ℕ) → Inv now m → Inv now (stop m is_live now u).0
stop-Inv m is_live now u v = elim (is_holder (holder now m.slot) u) [
  | inl mine ↦
      Passes-Inv now u m.queue is_live (stop m is_live now u) v.distinct
        (first_live is_live m.queue) refl ((stop_lem m is_live now u).1 mine)
  | inr other ↦ subst (λ r. Inv now r.0) (sym ((stop_lem m is_live now u).0 other)) v
]

on_disconnect-Inv :
    (m : Music) (is_live : ℕ → Bool) (lives_on : Bool) (now u : ℕ)
    → Inv now m
    → Inv now (on_disconnect m is_live lives_on now u)
unfolding on_disconnect
on_disconnect-Inv m is_live true now u v = v
on_disconnect-Inv m is_live false now u v =
    stop-Inv (record m { queue = dequeue u m.queue }) is_live now u (dequeue-Inv now u m v)

state_update-Inv :
    (m : Music) (now u position : ℕ) (is_paused : Bool)
    → Inv now m
    → Inv now (state_update m now u position is_paused).0
unfolding state_update
state_update-Inv m now u position is_paused v = elim (Bool-cases (is_user (holder now m.slot) u)) [
  | inl mine ↦ rw mine (record { distinct = v.distinct; served = v.served })
  | inr other ↦ rw other v
]

-- A request of a client, or the loss of its connection, with what the server knows of the sender.
pub data Request : Type 0 where
  play_request : (in_room is_manager : Bool) → (u title duration : ℕ) → (enqueue : Bool) → Request
  takeover_request : (in_room is_owner : Bool) → (u title duration : ℕ) → Request
  stop_request : (u : ℕ) → Request
  update_request : (u position : ℕ) → (is_paused : Bool) → Request
  leave_request : (in_room : Bool) → (u : ℕ) → Request
  disconnect : (lives_on : Bool) → (u : ℕ) → Request
  timer : Request

unfoldable pub serve : Request → (ℕ → Bool) → ℕ → Music → Music
serve (play_request in_room is_manager u title duration enqueue) is_live now m =
    (play m is_live in_room is_manager now u title duration enqueue).0
serve (takeover_request in_room is_owner u title duration) is_live now m =
    (takeover m in_room is_owner now u title duration).0
serve (stop_request u) is_live now m = (stop m is_live now u).0
serve (update_request u position is_paused) is_live now m =
    (state_update m now u position is_paused).0
serve (leave_request in_room u) is_live now m = (leave_queue m in_room u).0
serve (disconnect lives_on u) is_live now m = on_disconnect m is_live lives_on now u
serve timer is_live now m = (grace_timer is_live m now).0

-- Every handler, the disconnect hook and the grace timer keep the line: while a user waits somebody
-- holds the slot at that time, and nobody waits twice.
pub serve-Inv :
    (r : Request) (is_live : ℕ → Bool) (now : ℕ) (m : Music)
    → Inv now m
    → Inv now (serve r is_live now m)
unfolding serve
serve-Inv (play_request in_room is_manager u title duration enqueue) is_live now m v =
    play-Inv m is_live in_room is_manager now u title duration enqueue v
serve-Inv (takeover_request false is_owner u title duration) is_live now m v = unfold takeover in v
serve-Inv (takeover_request true false u title duration) is_live now m v = unfold takeover in v
serve-Inv (takeover_request true true u title duration) is_live now m v =
    unfold takeover in (held-Inv now u _ (ground arith) v.distinct)
serve-Inv (stop_request u) is_live now m v = stop-Inv m is_live now u v
serve-Inv (update_request u position is_paused) is_live now m v =
    state_update-Inv m now u position is_paused v
serve-Inv (leave_request false u) is_live now m v = unfold leave_queue in v
serve-Inv (leave_request true u) is_live now m v = unfold leave_queue in dequeue-Inv now u m v
serve-Inv (disconnect lives_on u) is_live now m v = on_disconnect-Inv m is_live lives_on now u v
serve-Inv timer is_live now m v = (grace_timer-Inv m is_live now v.distinct).0
