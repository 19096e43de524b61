-- ===== src/Lib.antt =====
-- A model of the parts of the server that decide: who sits where and who may say so, who owns a room,
-- when it is open and what Laravel is told of it, whose turn it is to play, which events count and who
-- emits them, who is online, and what becomes of gifts.
--
-- The parts and the files that model them (paths from the repository's root):
-- - Seat: src/domains/seat/seat.lua-scripts.ts. Seat/Types has the three Redis structures of a
--   room, Seat/Scan the scans of the seats hash, Seat/Scripts TAKE_SEAT, LEAVE_SEAT, ASSIGN_SEAT,
--   SET_MUTE, LOCK_SEAT and UNLOCK_SEAT, Seat/Retention RESERVE_SEAT, RECLAIM_SEAT,
--   SWEEP_EXPIRED_SEATS and SHRINK_EVICT, Seat/Steps the order in which they run between losses of
--   expired keys. Seat/Repository has seat.repository.ts, whose methods call the scripts and read
--   the rows of a room; Seat/Answers and Seat/Snapshot are about it. Seat/Invites has
--   seat-invite.repository.ts, Seat/Invitation the handlers of invitations in
--   src/domains/seat/handlers, Seat/Accepting what they do, and Seat/Taking take-seat.handler.ts with
--   its second attempt. Seat/Moderation has the handlers that leave, lock, unlock, assign, remove and
--   mute, and Seat/Vip vip.guard.ts; Seat/Sanction and Seat/Unread are about them. Seat/Invariant and its children say
--   what each script keeps; Seat/Safety, Seat/Behaviour, Seat/Locks and Seat/Reconnect are about
--   their effects.
-- - Registry: src/domains/room/room-registry.ts. Registry/Ownership has the ownership claim and
--   its cached read, Registry/Origin the address of the origin, the edges and the cleanup,
--   Registry/Lease the claim as a lease among all instances, Registry/Cache how old an answer of
--   isOwner can be.
-- - Room: src/domains/room. Room/Blocks has room-block.repository.ts; Room/State roomState.ts, and
--   Room/Counts histories of its scripts; Room/Coalescer status-coalescer.ts, and Room/Delivered what
--   it sends; Room/Presence presence-tracker.ts; Room/AutoClose the sweep and the evaluator of
--   auto-close, Room/Sweeps what a sweep closes and Room/Grace the grace period; Room/Manager the
--   creation, closing, reaping and eviction of roomManager.ts, with the ends of its heartbeat and of
--   leave-finalizer.ts, Room/Closing what they do, and Room/Races what runs while they wait.
-- - Ingest: src/infrastructure/event-ordering.ts in Ingest/Ordering and Ingest/Versions,
--   src/infrastructure/event-dedup.ts in Ingest/Dedup, src/infrastructure/event-ingest.ts in
--   Ingest/Envelope, with Ingest/Delivery on repeated deliveries and Ingest/Overload on envelopes that
--   overlap, and src/infrastructure/queue-consumer.ts in Ingest/Queue and Ingest/Batches.
-- - Router: src/integrations/laravel/event-router.ts. Router/Route has the target, the fan-out claim, the
--   emit and the choice of the side effects, Router/Fleet one event at every instance, one after
--   the other, and Router/Overlap two that overlap; Router/Mirror the blocks and unblocks behind the
--   ordering guard and Router/Crossing two that cross; Router/SeatCount the seat count of room.updated.
-- - Authority: src/domains/seat/seat.owner.ts and canManageRoom of src/integrations/laravelClient.ts.
--   Authority/Caches has the two caches, Authority/Freshness how old and how large they get,
--   Authority/Verify the three tiers.
-- - Presence: src/domains/presence/presence.service.ts in Presence/Connections, with Presence/Online on
--   connections one after the other and Presence/Overlap on commands that overlap.
-- - Limits: src/infrastructure/rateLimiter.ts in Limits/Window and Limits/WindowBounds,
--   src/infrastructure/rejection-breaker.ts in Limits/Breaker,
--   src/domains/broadcast/mixer-port-registry.ts in Limits/Ports, src/shared/retry.ts in Limits/Retry.
-- - Audio: src/domains/audio-player. Audio/Queue has the scripts of audio-player.queue.ts, the
--   walk to a live waiter and the grace timer, Audio/Player the handlers and the disconnect hook;
--   Audio/Grants, Audio/Waiting, Audio/Turns and Audio/Waiters are about them.
-- - Clients: src/client/clientManager.ts in Clients/Manager; Clients/Index and Clients/Sessions
--   are about the room index over histories of sockets.
-- - Gift: src/domains/gift/giftBuffer.ts. Gift/Buffer has the lists and messages, Gift/Flush the
--   flush; Gift/Accounting, Gift/Outage and Gift/Kept are about it.
-- - Budget: src/infrastructure/socketEventBudget.ts in Budget/Bucket and Budget/Bounds.
-- - Mode: src/domains/room/mode. Mode/Controller has the decision, Mode/Service the service that
--   applies it, Mode/Hysteresis how they behave over heartbeats.
-- - Prelude has what all share: Prelude/Tests the Boolean tests and the conditional, Prelude/Lists
--   lists, Prelude/Int signed integers, Prelude/Redis hashes, sets and string keys.
-- - Tests has the results at concrete inputs.
--
-- How they interact: the modes, seats and music of a room are served by the instance that holds the
-- room's claim in the registry; the handlers reach the seats and the music slot only through the
-- scripts, which Redis runs one at a time, so a script is a function on the state and a history is a
-- list or a relation of such steps. Claims and version keys expire: their state holds the deadline,
-- and a read takes the time. An event goes through the ingest pipeline, which claims it for this
-- instance, to the router, which claims its emit for the fleet and works on rooms, seats and blocks; the
-- router of Ingest is what the pipeline is given, returning or throwing. A room's presence goes from the
-- tracker to the state, the auto close and, by the coalescer, to Laravel. Where a handler waits between
-- commands, Room/Races, Presence/Overlap, Ingest/Overload, Router/Overlap and Router/Crossing take the
-- parts between two waits as steps; the other models run a handler with nothing between its commands, and say so.
--
-- Numbers: ids, times in milliseconds and versions are natural numbers, and a seat index that a
-- caller passes is an integer. No arithmetic of the modelled code leaves the exact range of its
-- numbers: times and counts stay far below 2^53, and tokens are counted in thousandths, for a rate
-- is a whole number of tokens in a second and times are whole milliseconds.
--
-- Fuel: grant_chain runs on fuel, one round for the first user and one for each waiter, since each
-- further round pops a waiter; grant_head gives it that much. The port search has a round for each
-- number of the range, which is more than the ports it can pass; retry_loop runs on the attempts left.
--
-- Not modelled: mediasoup, the HLS pipeline, HTTP between instances and to Laravel, whose answers
-- are arguments; the handlers that only validate and forward; logs and metrics of duration. The
-- two-hour expiry of the music state and queue, which ends a room that crashed, is left out. Of the join,
-- which composes these parts with mediasoup, nothing is modelled, nor is ejection. The
-- handlers that emit give their emits as values or leave them out, as each file says.
pub mod Audio
pub mod Authority
pub mod Budget
pub mod Clients
pub mod Gift
pub mod Ingest
pub mod Limits
pub mod Mode
pub mod Prelude
pub mod Presence
pub mod Registry
pub mod Room
pub mod Router
pub mod Seat
pub mod Tests
