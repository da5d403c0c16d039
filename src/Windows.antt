-- ===== src/Windows.antt =====
-- The Windows layer, rt0/os/Windows.
pub mod Module
pub mod Unwind
pub mod Manager
pub mod Frame
pub mod Loader
