-- ===== src/Seat.antt =====
-- The seats of a room: src/domains/seat/seat.lua-scripts.ts and seat.repository.ts.
pub mod Types
pub mod Scan
pub mod Scripts
pub mod Retention
pub mod Invariant
pub mod Steps
pub mod Safety
pub mod Behaviour
pub mod Locks
pub mod Reconnect
pub mod Repository
pub mod Answers
pub mod Snapshot
pub mod Taking
pub mod Vip
pub mod Moderation
pub mod Sanction
pub mod Unread
pub mod Invites
pub mod Invitation
pub mod Accepting
