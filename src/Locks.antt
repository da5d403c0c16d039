-- ===== src/Locks.antt =====
-- The locks of src/rt.base over the atomic operations, and those over the system's in rt0/os.
pub mod SpinLock
pub mod RwLock
pub mod PagePoolMutex
pub mod Semaphore
pub mod Permits
pub mod PthreadSpin
