-- ===== src/Audio.antt =====
-- The shared music player of a room and its waiting queue: src/domains/audio-player.
pub mod Queue
pub mod Player
pub mod Grants
pub mod Waiting
pub mod Turns
pub mod Waiters
