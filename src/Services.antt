-- ===== src/Services.antt =====
-- The projections that api/services keeps of the engine's events.
pub mod Delta
pub mod Replay
pub mod Tape
pub mod Latency
mod Tests
