-- ===== src/Ingest.antt =====
-- The gates in front of Laravel's events: src/infrastructure/event-ordering.ts and event-dedup.ts.
pub mod Ordering
pub mod Versions
pub mod Dedup
pub mod Envelope
pub mod Queue
pub mod Delivery
pub mod Overload
pub mod Batches
