-- ===== src/Registry.antt =====
-- Which instance is the origin of a room: src/domains/room/room-registry.ts over Redis keys that
-- expire. Times are milliseconds of one clock, which each operation is given; a key set at `now`
-- with a TTL is read until its deadline.
pub mod Ownership
pub mod Origin
pub mod Lease
pub mod Cache
