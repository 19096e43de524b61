-- ===== src/Mode.antt =====
-- When a room flips between WebRTC and HLS delivery: src/domains/room/mode.
pub mod Controller
pub mod Service
pub mod Hysteresis
