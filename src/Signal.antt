-- ===== src/Signal.antt =====
-- The signal layer, rt0/signal.
pub mod World
pub mod Stack
pub mod Handler
pub mod Calls
