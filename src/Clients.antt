-- ===== src/Clients.antt =====
-- The clients connected to an instance: src/client/clientManager.ts.
pub mod Manager
pub mod Index
pub mod Sessions
