-- ===== src/Router/Overlap.antt =====
-- Two instances whose routings of one event overlap: src/integrations/laravel/event-router.ts waits for
-- the answer to its claim and for the sockets of a user, and hands a claim back without waiting.
