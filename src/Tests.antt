-- ===== src/Tests.antt =====
-- The theorems at concrete inputs, one child for each part of the program.
pub mod Audio
pub mod Budget
pub mod Clients
pub mod Gift
pub mod Ingest
pub mod Invitations
pub mod Mode
pub mod Registry
pub mod Room
pub mod Seat
pub mod Limits
pub mod Presence
pub mod Authority
pub mod Router
pub mod Delivery
pub mod Lifecycle
pub mod Taking
pub mod Moderation
