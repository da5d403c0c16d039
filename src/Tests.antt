-- ===== src/Tests.antt =====
-- The theorems applied to concrete data.
mod Windows
mod Frames
mod Signal
mod Instance
mod Memory
mod Sections
mod Locks
mod Bridge
mod Heap
mod FreeRegions
mod Words
mod Storage
