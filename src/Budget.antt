-- ===== src/Budget.antt =====
-- The per-socket event budget: the token bucket of src/infrastructure/socketEventBudget.ts.
-- The source's tokens are fractions of a second's refill; here they are counted in thousandths, in
-- which every amount that whole milliseconds can add is a whole number.
pub mod Bucket
pub mod Bounds
