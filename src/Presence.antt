-- ===== src/Presence.antt =====
-- Whether a user is online: src/domains/presence/presence.service.ts.
pub mod Connections
pub mod Online
pub mod Overlap
