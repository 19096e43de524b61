-- ===== src/Audio/Player.antt =====
-- The handlers of src/domains/audio-player/audio-player.handler.ts and the disconnect hook of
-- audio-player.lifecycle.ts. A handler runs here with no command of another client between its
-- own; what the source reads of the sockets and the owner is an argument.
use mediasoup_socket_io_audi.Prelude.{
  ℕ, List, [], ◌∷◌, Option, none, some, Bool, true, false, ◌==◌, if◌then◌else◌, not, has,
}
use mediasoup_socket_io_audi.Audio.Queue.{
  Music, MusicState, hold, holder, player_ttl_ms, enqueue_waiter, Released, denied, released,
  release_and_grant, promote_if_free, acquire_script, dequeue, Walk, granted, grant_head, is_user,
}

-- What the server emits.
pub data Event : Type 0 where
  playing stopped : ℕ → Event
  progress : ℕ → ℕ → Bool → Event
  revoked : ℕ → Event
  turn : ℕ → Event

pub data Ack : Type 0 where
  done : Ack
  removed : Bool → Ack
  queued : ℕ → Ack
  music_already_playing not_in_room not_authorized : Ack

abbrev pub emitted : Walk → List Event
emitted (granted u) = turn u ∷ []
emitted w = []

-- acquireMusicSlot: free or mine, else a steal from a holder with no live socket.
unfoldable pub acquire_slot : Music → (ℕ → Bool) → ℕ → ℕ → Music × Bool
acquire_slot m is_live now me =
    let (m1, first) = acquire_script m me none now in
    if first == me
    then (m1, true)
    else (if is_live first
        then (m1, false)
        else (let (m2, second) = acquire_script m1 me (some first) now in (m2, second == me)))

abbrev pub start_state : ℕ → ℕ → ℕ → ℕ → MusicState
start_state u title duration now = record {
  user_id = u;
  title = title;
  duration = duration;
  started_at = now;
  is_paused = false;
  position = 0;
}

abbrev start : Music → ℕ → ℕ → ℕ → ℕ → Music × Ack × List Event
start m u title duration now =
    (record m { state = some (start_state u title duration now) }, done, playing u ∷ [])

-- playHandler after its denial: enqueue, promote if the slot went free, and acquire again if that
-- promoted the caller.
unfoldable pub wait_turn : Music → (ℕ → Bool) → ℕ → ℕ → ℕ → ℕ → Music × Ack × List Event
wait_turn m is_live now u title duration =
    let (m1, position) = enqueue_waiter m u in
    let (m2, promoted) = promote_if_free m1 now in
    if is_user promoted u
    then (let (m3, acquired) = acquire_slot m2 is_live now u in
        if acquired then start m3 u title duration now else (m3, music_already_playing, []))
    else (let (m3, walk) = grant_head is_live m2 now promoted in
        (m3, queued position, emitted walk))

-- audioPlayer:play
unfoldable pub play :
    Music
    → (ℕ → Bool)
    → (in_room is_manager : Bool) → ℕ
    → ℕ
    → ℕ
    → ℕ
    → (enqueue : Bool) → Music × Ack × List Event
unfolding wait_turn
play m is_live in_room is_manager now u title duration enqueue =
    if not in_room
    then (m, not_in_room, [])
    else (if not is_manager
        then (m, not_authorized, [])
        else (let (m1, acquired) = acquire_slot m is_live now u in
            if acquired
            then start m1 u title duration now
            else (if enqueue
                then wait_turn m1 is_live now u title duration
                else (m1, music_already_playing, []))))

displaced_event : Option ℕ → ℕ → List Event
displaced_event none u = []
displaced_event (some d) u = if d == u then [] else revoked d ∷ []

abbrev pub append_playing : List Event → ℕ → List Event
append_playing [] u = playing u ∷ []
append_playing (e ∷ es) u = e ∷ append_playing es u

-- audioPlayer:takeover
unfoldable pub takeover :
    Music → (in_room is_owner : Bool) → ℕ → ℕ → ℕ → ℕ → Music × Ack × List Event
unfolding displaced_event
takeover m in_room is_owner now u title duration =
    if not in_room
    then (m, not_in_room, [])
    else (if not is_owner then (m, not_authorized, []) else (
      record m { slot = hold u now player_ttl_ms; state = some (start_state u title duration now) },
      done,
      append_playing (displaced_event (holder now m.slot) u) u,
    ))

unfoldable pub stop_reply : (ℕ → Bool) → ℕ → ℕ → Music × Released → Music × Ack × List Event
stop_reply is_live now u (m, denied cur) = (m, not_authorized, [])
stop_reply is_live now u (m, released head) =
    let (m', walk) = grant_head is_live m now head in (m', done, stopped u ∷ emitted walk)

-- audioPlayer:stop, and releaseMusicPlayerForUser, which drops the acknowledgement.
unfoldable pub stop : Music → (ℕ → Bool) → ℕ → ℕ → Music × Ack × List Event
unfolding stop_reply
stop m is_live now u = stop_reply is_live now u (release_and_grant m u now)

move_to : Option MusicState → ℕ → Bool → Option MusicState
move_to none position is_paused = none
move_to (some st) position is_paused =
    some (record st { position = position; is_paused = is_paused })

-- audioPlayer:stateUpdate
unfoldable pub state_update : Music → ℕ → ℕ → ℕ → Bool → Music × Ack × List Event
unfolding move_to
state_update m now u position is_paused =
    if is_user (holder now m.slot) u
    then (
      record m { state = move_to m.state position is_paused },
      done,
      progress u position is_paused ∷ [],
    )
    else (m, not_authorized, [])

-- audioPlayer:leaveQueue
unfoldable pub leave_queue : Music → (in_room : Bool) → ℕ → Music × Ack
leave_queue m in_room u =
    if not in_room
    then (m, not_in_room)
    else (record m { queue = dequeue u m.queue }, removed (has u m.queue))

-- audioPlayerLifecycle.onDisconnect: `lives_on` is whether another socket of the user is live.
unfoldable pub on_disconnect : Music → (ℕ → Bool) → Bool → ℕ → ℕ → Music
unfolding stop
on_disconnect m is_live lives_on now u =
    if lives_on then m else (stop (record m { queue = dequeue u m.queue }) is_live now u).0
