-- ===== src/Gift.antt =====
-- Buffered gift transactions: src/domains/gift/giftBuffer.ts.
pub mod Buffer
pub mod Flush
pub mod Accounting
pub mod Outage
pub mod Kept
