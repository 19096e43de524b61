-- ===== src/Authority.antt =====
-- Who may act on a room and on its members: src/domains/seat/seat.owner.ts and the role cache of
-- src/integrations/laravelClient.ts.
pub mod Caches
pub mod Freshness
pub mod Verify
