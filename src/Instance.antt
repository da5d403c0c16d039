-- ===== src/Instance.antt =====
-- The runtime instances, src.native/rt.instance/instance_bridge.cpp and contract/cjcj_rt_instance.h.
pub mod Api
pub mod Start
pub mod Handshake
pub mod Returns
