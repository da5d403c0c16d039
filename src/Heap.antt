-- ===== src/Heap.antt =====
-- src/rt.heap.allocator: the allocator of the heap.
pub mod CartesianTree
pub mod FreeRegionManager
