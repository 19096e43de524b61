-- ===== src/Room/Races.antt =====
-- The waits of src/domains/room/roomManager.ts and src/domains/room/leave-finalizer.ts: what other
-- calls about the room run while a close, a heartbeat or a leave waits.
use mediasoup_socket_io_audi.Prelude.{
  ℕ, suc, ◌+◌, ◌≡◌, refl, List, [], ◌∷◌, ◌++◌, Option, none, some, Bool, true, false, if◌then◌else◌,
  arith, ◌∙◌,
}
use mediasoup_socket_io_audi.Prelude.Redis.{answers, hget, hdel, hset, hget-hdel}
use mediasoup_socket_io_audi.Room.Coalescer.{
  Coalescer, RoomStatusUpdate, submit, flush_now, forget, flush_all,
}
use mediasoup_socket_io_audi.Room.Delivered.{last_of, last_of-++}
use mediasoup_socket_io_audi.Room.Manager.{
  Manager, Cleanup, ended, live, begin_close, clean_up, finish_close, end_heartbeat, end_leave,
}

-- The manager, whether a close waits for its cleanup, and how many heartbeats and leaves wait for the
-- room's presence.
pub record Play : Type 0 where
  pub manager : Manager
  pub closing : Bool
  pub beats : ℕ
  pub leavers : ℕ

abbrev pub flushed : Manager → Manager
flushed m = record m { coalescer = flush_all m.coalescer }

-- What happens to a room between two waits, as long as it is not opened again.
pub data Step (room : ℕ) (p : Play) : Play → Type 0 where
  close_begins :
      p.manager.hosted ≡ true
      → p.closing ≡ false
      → Step room p (record p { manager = begin_close room p.manager; closing = true })
  cleans_up :
      (c : Cleanup) → p.closing ≡ true → Step room p (record p { manager = clean_up c p.manager })
  close_throws : p.closing ≡ true → Step room p (record p { closing = false })
  close_ends :
      p.closing ≡ true
      → Step room p (record p { manager = finish_close room p.manager; closing = false })
  beat_begins : p.manager.hosted ≡ true → Step room p (record p { beats = p.beats + 1 })
  beat_ends :
      (count n : ℕ)
      → p.beats ≡ suc n
      → Step room p (record p { manager = end_heartbeat room count p.manager; beats = n })
  leave_begins : Step room p (record p { leavers = p.leavers + 1 })
  leave_ends :
      (count : Option ℕ) (n : ℕ)
      → p.leavers ≡ suc n
      → Step room p (record p { manager = end_leave room count p.manager; leavers = n })
  tick : Step room p (record p { manager = flushed p.manager })

infixr 40 ◌then◌
pub data Steps (room : ℕ) : Play → Play → Type 0 where
  done : {p : Play} → Steps room p p
  ◌then◌ : {p q r : Play} → Step room p q → Steps room q r → Steps room p r

abbrev pub begins_leave : {room : ℕ} {p q : Play} → Step room p q → Bool
begins_leave (close_begins h c) = false
begins_leave (cleans_up c h) = false
begins_leave (close_throws h) = false
begins_leave (close_ends h) = false
begins_leave (beat_begins h) = false
begins_leave (beat_ends count n h) = false
begins_leave leave_begins = true
begins_leave (leave_ends count n h) = false
begins_leave tick = false

-- No leave begins.
abbrev pub LeaveFree : {room : ℕ} {p q : Play} → Steps room p q → Type 0
LeaveFree done = Unit {0}
LeaveFree (x then xs) = (begins_leave x ≡ false) × LeaveFree xs

-- The room is closed, nothing of it is buffered, and no leave is under way.
abbrev pub Quiet : ℕ → Play → Type 0
Quiet room p =
    (p.manager.hosted ≡ false)
    × (p.closing ≡ false)
    × (p.leavers ≡ 0)
    × (last_of room p.manager.coalescer.pending ≡ none)

step-Quiet :
    (room : ℕ) (p q : Play)
    → (x : Step room p q) → begins_leave x ≡ false
    → Quiet room p
    → Quiet room q × (last_of room q.manager.coalescer.sent ≡ last_of room p.manager.coalescer.sent)
step-Quiet room p q (close_begins h c) f (a, b, d, e) = ground arith
step-Quiet room p q (cleans_up c h) f (a, b, d, e) = ground arith
step-Quiet room p q (close_throws c) f (a, b, d, e) = ground arith
step-Quiet room p q (close_ends c) f (a, b, d, e) = ground arith
step-Quiet room p q (beat_begins h) f (a, b, d, e) = ground arith
step-Quiet room p q (beat_ends count n h) f (a, b, d, e) = unfold end_heartbeat in ground arith
step-Quiet room p q leave_begins f (a, b, d, e) = ground arith
step-Quiet room p q (leave_ends count n h) f (a, b, d, e) = ground arith
step-Quiet room p q tick f (a, b, d, e) =
    unfold flush_all in
    unfold last_of in
    ground (arith, last_of-++ room p.manager.coalescer.sent p.manager.coalescer.pending)

nothing_more :
    {room : ℕ} {p q : Play}
    → (xs : Steps room p q) → LeaveFree xs
    → Quiet room p
    → Quiet room q × (last_of room q.manager.coalescer.sent ≡ last_of room p.manager.coalescer.sent)
nothing_more done free h = (h, refl)
nothing_more {room = room} {p = p} {q = r} (◌then◌ {q = q} x xs) (f, free) h =
    let (quiet, same) = step-Quiet room p q x f h in
    let (quiet', same') = nothing_more xs free quiet in (quiet', same' ∙ same)

last_of-hdel {ℓ} : {V : Type ℓ} (room : ℕ) (m : List (ℕ × V)) → last_of room (hdel room m) ≡ none
unfolding last_of hdel
last_of-hdel room [] = refl
last_of-hdel room ((r, v) ∷ m) = ground (arith, last_of-hdel room m)

abbrev pub closed : ℕ → Play → Play
closed room p = record p { manager = finish_close room p.manager; closing = false }

-- When a close ends while no leave is under way, and none begins later, what Laravel was last sent of
-- the room stays the last, whatever heartbeats that began before, and ticks of the coalescer, come
-- after it in whatever order, as long as the room is not opened again.
pub finish_close-Steps :
    (room : ℕ) (p q : Play)
    → p.leavers ≡ 0
    → (steps : Steps room (closed room p) q) → LeaveFree steps
    → (q.manager.hosted ≡ false)
      × (last_of room q.manager.coalescer.sent ≡ last_of room p.manager.coalescer.sent)
unfolding finish_close forget
finish_close-Steps room p q none_leaves steps free =
    let (quiet, same) =
      nothing_more steps free
        (refl, refl, none_leaves, last_of-hdel room p.manager.coalescer.pending) in
    (quiet.0, same)

-- The close began, so that Laravel was sent that the room ended; then all is over.
abbrev pub Over : ℕ → Play → Type 0
Over room p =
    (p.manager.hosted ≡ false)
    × (p.closing ≡ false)
    × (p.beats ≡ 0)
    × (p.leavers ≡ 0)
    × (hget room p.manager.coalescer.pending ≡ none)

last_of-hset {ℓ} :
    {V : Type ℓ} (room : ℕ) (v : V) (m : List (ℕ × V))
    → last_of room (hset room v (hdel room m)) ≡ some v
unfolding last_of hset hdel
last_of-hset room v [] = ground arith
last_of-hset room v ((r, w) ∷ m) = ground (arith, last_of-hset room v m)

abbrev tidy : Cleanup
tidy = record { cluster_closes = true; delete_link = answers; release_link = answers; read = true }

-- Whatever presence a heartbeat that waits has found, there is an order of events that closes the room
-- and yet leaves that presence as the last that Laravel was sent, because the heartbeat's check finds
-- the room during the close's cleanup and the coalescer's timer ticks before the close ends. The same
-- holds of a leave that waits for the presence, which makes no check: it submits after the close.
pub stale_presence :
    (room count : ℕ) (m : Manager)
    → m.hosted ≡ true
    → ((q : Play) × Steps room (record { manager = m; closing = false; beats = 1; leavers = 0 }) q
        × Over room q
        × (last_of room q.manager.coalescer.sent ≡ some (live count)))
      × ((q : Play) × Steps room (record { manager = m; closing = false; beats = 0; leavers = 1 }) q
          × Over room q
          × (last_of room q.manager.coalescer.sent ≡ some (live count)))
unfolding begin_close clean_up finish_close end_heartbeat end_leave submit flush_now forget
    flush_all hget
stale_presence room count m h =
    let c : Coalescer = m.coalescer in
    let ended_sent = c.sent ++ (room, ended) ∷ [] in
    let first = last_of-++ room ended_sent (hset room (live count) (hdel room c.pending)) in
    let second =
      last_of-++ room ended_sent (hset room (live count) (hdel room (hdel room c.pending))) in
    let a = last_of-hset room (live count) c.pending in
    let b = last_of-hset room (live count) (hdel room c.pending) in
    let nothing = hget-hdel {V = RoomStatusUpdate} room room [] in
    (
      (
        _,
        close_begins h refl
            then beat_ends count 0 refl
            then tick
            then cleans_up tidy refl
            then close_ends refl
            then done,
        ground (arith, nothing),
        ground (arith, first, a),
      ),
      (
        _,
        close_begins h refl
            then cleans_up tidy refl
            then close_ends refl
            then leave_ends (some count) 0 refl
            then tick
            then done,
        ground arith,
        ground (arith, second, b),
      ),
    )
