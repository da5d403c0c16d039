-- ===== src/Bridge.antt =====
-- The small bridges of rt0 between the Cangjie packages and the C++ runtime.
pub mod Saferegion
pub mod SafepointPages
pub mod AllocBuffer
