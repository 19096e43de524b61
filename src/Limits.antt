-- ===== src/Limits.antt =====
-- What bounds rates, resources and repetition: src/infrastructure/rateLimiter.ts,
-- src/infrastructure/rejection-breaker.ts, src/domains/broadcast/mixer-port-registry.ts and
-- src/shared/retry.ts.
pub mod Window
pub mod WindowBounds
pub mod Breaker
pub mod Ports
pub mod Retry
