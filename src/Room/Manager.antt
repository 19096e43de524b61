-- ===== src/Room/Manager.antt =====
-- `RoomManager` of src/domains/room/roomManager.ts for one room on one instance, with the end of
-- `finalizeLeave` of src/domains/room/leave-finalizer.ts. Media, emits and seats are left out.
use mediasoup_socket_io_audi.Prelude.{
  ℕ, [], ◌∷◌, ◌++◌, Option, none, some, Bool, true, false, not, ltb, ◌&&◌, if◌then◌else◌,
}
use mediasoup_socket_io_audi.Prelude.Redis.{Link, after_call, is_answered}
use mediasoup_socket_io_audi.Mode.Controller.{interactive}
use mediasoup_socket_io_audi.Room.State.{StateKey, RoomState, default, get, save, delete}
use mediasoup_socket_io_audi.Room.Coalescer.{Coalescer, RoomStatusUpdate, submit, flush_now, forget}

-- Whether the room is in `rooms`, its shared key, the tracker's entry, whether this instance's claim on
-- it is in Redis, and the coalescer, whose `sent` lists all requests about rooms, in order.
pub record Manager : Type 0 where
  pub hosted : Bool
  pub key : StateKey
  pub zero_since : Option ℕ
  pub claimed : Bool
  pub coalescer : Coalescer

abbrev pub live : ℕ → RoomStatusUpdate
live count = record { is_live = ltb 0 count; participant_count = count }

abbrev pub opened : RoomStatusUpdate
opened = record { is_live = true; participant_count = 0 }

abbrev pub ended : RoomStatusUpdate
ended = record { is_live = false; participant_count = 0 }

abbrev pub new_state : ℕ → RoomState
new_state now = record {
  participant_count = 0;
  seat_count = 15;
  seat_count_source = some default;
  mode = some interactive;
  created_at = now;
  last_activity_at = now;
}

-- Which of the calls that create a room succeed: the cluster's initialize, the reading and the saving
-- of the state, the request to Laravel and, after a failure, the registry's cleanup.
pub record Init : Type 0 where
  pub initialized : Bool
  pub read : Bool
  pub save_link : Link
  pub accepted : Bool
  pub release_link : Link

-- Step 3 of doCreateRoom: a state is saved only if there is none.
abbrev pub init_state : Init → ℕ → StateKey → StateKey × Bool
init_state i now k = if not i.read then (k, false) else elim (get k now) [
  | some s ↦ (k, true)
  | none ↦ (after_call i.save_link (save (new_state now) now) k, is_answered i.save_link)
]

-- A request to Laravel that does not go through the coalescer.
abbrev pub tell : ℕ → RoomStatusUpdate → Coalescer → Coalescer
tell room status c = record c { sent = c.sent ++ (room, status) ∷ [] }

-- What doCreateRoom does when a step after the first fails: the claim is released, and a failure of
-- that is swallowed.
abbrev pub abandon : Link → Manager → Manager
abandon release_link m = record m { claimed = after_call release_link false m.claimed }

abbrev pub register : Init → Manager → Manager × Bool
register i m =
    if i.accepted then (record m { hosted = true }, true) else (abandon i.release_link m, false)

-- Steps 4 and 5 of doCreateRoom.
abbrev pub init_laravel : ℕ → Init → Manager → StateKey × Bool → Manager × Bool
init_laravel room i m (k, done) =
    if done
    then register i (record m { key = k; coalescer = tell room opened m.coalescer })
    else (abandon i.release_link (record m { key = k }), false)

-- doCreateRoom, and whether it returns.
unfoldable pub do_create_room : ℕ → Init → ℕ → Manager → Manager × Bool
do_create_room room i now m =
    if not i.initialized then (m, false) else init_laravel room i m (init_state i now m.key)

-- getOrCreateRoom; a call during a creation waits for that one.
unfoldable pub get_or_create_room : ℕ → Init → ℕ → Manager → Manager × Bool
get_or_create_room room i now m = if m.hosted then (m, true) else do_create_room room i now m

-- closeRoom of a room in `rooms`, up to the wait for its cleanup,
unfoldable pub begin_close : ℕ → Manager → Manager
begin_close room m = record m { coalescer = flush_now m.coalescer room ended }

-- How the calls of a cleanup end: the close of the cluster, the delete of the state's key, the release
-- of the claim and, of an orphan, the read of its state. The seats' and the cascade's do not throw.
pub record Cleanup : Type 0 where
  pub cluster_closes : Bool
  pub delete_link : Link
  pub release_link : Link
  pub read : Bool

-- the cleanup of what instances share, where only a failure of the release is swallowed,
unfoldable pub clean_up : Cleanup → Manager → Manager
clean_up c m = record m {
  key = after_call c.delete_link (delete m.key) m.key;
  claimed = after_call c.release_link false m.claimed;
}

-- `await Promise.all(cleanupOps)`
abbrev pub cleans : Cleanup → Bool
cleans c = c.cluster_closes && is_answered c.delete_link

-- and what follows it.
unfoldable pub finish_close : ℕ → Manager → Manager
finish_close room m = record m {
  hosted = false;
  zero_since = none;
  coalescer = forget m.coalescer room;
}

abbrev pub reaped : ℕ → Cleanup → Manager → Manager × Bool
reaped room c m =
    if is_answered c.delete_link
    then (
      record m { key = delete m.key; zero_since = none; coalescer = forget m.coalescer room },
      true,
    )
    else (record m { key = after_call c.delete_link (delete m.key) m.key }, false)

-- reapOrphanedState, and whether it returns.
unfoldable pub reap_orphaned_state : ℕ → Cleanup → ℕ → Manager → Manager × Bool
reap_orphaned_state room c now m = if not c.read then (m, false) else elim (get m.key now) [
  | none ↦ (m, true)
  | some s ↦ reaped room c (record m { coalescer = flush_now m.coalescer room ended })
]

-- closeRoom, with nothing between its steps, and whether it returns.
unfoldable pub close_room : ℕ → Cleanup → ℕ → Manager → Manager × Bool
close_room room c now m =
    if m.hosted
    then (if cleans c
        then (finish_close room (clean_up c (begin_close room m)), true)
        else (clean_up c (begin_close room m), false))
    else reap_orphaned_state room c now m

-- evictLocalRoom
unfoldable pub evict_local_room : Manager → Manager
evict_local_room m = if m.hosted then record m { hosted = false; zero_since = none } else m

-- The heartbeat after its reads: the room's presence is submitted unless the room is gone.
unfoldable pub end_heartbeat : ℕ → ℕ → Manager → Manager
end_heartbeat room count m =
    if m.hosted then record m { coalescer = submit m.coalescer room (live count) } else m

-- The end of finalizeLeave: the presence that `reconcile` found is submitted, if it found one.
unfoldable pub end_leave : ℕ → Option ℕ → Manager → Manager
end_leave room none m = m
end_leave room (some count) m = record m { coalescer = submit m.coalescer room (live count) }
