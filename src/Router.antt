-- ===== src/Router.antt =====
-- What an instance does with an event of Laravel: src/integrations/laravel/event-router.ts.
pub mod Route
pub mod Fleet
pub mod Overlap
pub mod Mirror
pub mod Crossing
pub mod SeatCount
