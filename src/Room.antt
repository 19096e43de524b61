-- ===== src/Room.antt =====
-- What the server and Redis keep of a room beside its seats: src/domains/room.
pub mod Blocks
pub mod State
pub mod Counts
pub mod Coalescer
pub mod Delivered
pub mod Presence
pub mod AutoClose
pub mod Sweeps
pub mod Grace
pub mod Manager
pub mod Closing
pub mod Races
