-- ===== src/Lib.antt =====
-- cjcj-runtime: the native layer of the Cangjie runtime, modelled and verified.
--
-- The repository ports the C++ runtime of Cangjie to Cangjie itself, one package after the other.
-- Below the Cangjie packages (src/rt.base, src/rt.heap.allocator and so on) stays a layer of C++:
-- rt0, with the operating system, signals and atomic operations, and src.native, with the
-- instances of the scheduler. This development models that layer. The Cangjie packages call it
-- through the exported C functions; of them the locks of src/rt.base, the state word of
-- src/rt.common, the bitmaps of src/rt.objectmodel and the free units of src/rt.heap.allocator are
-- modelled here.
--
-- The parts and their files:
-- - Atomic, Atomic/Bytes, Atomic/Fields, Atomic/Tickets: rt0/Atomic.cpp. `read` and `write` are the
--   loads and stores of n bytes, `field_*` the operations with a size (cj_atomic_field_*), the
--   others carry the name of the C function without its prefix. A memory is a function from
--   addresses to bytes, little-endian.
-- - Locks: src/rt.base/AtomicSpinLock.cj and RwLock.cj, whose operations are those of Atomic;
--   PagePoolMutex is the mutex of rt0/os/Linux/PagePoolMutex.cpp and of the files of that name for
--   macOS and Windows, Semaphore and Permits rt0/os/Linux/CJThreadSemaphore.cpp, PthreadSpin
--   SpinLock.cpp and CJThreadSpinLock.cpp beside it. Any number of threads take steps on one lock in
--   any order; in Permits a step is one call of the system, also within the loop that waits again.
-- - Signal: rt0/signal. World is the state: the array SignalStack::stacks, the thread's mask and its
--   "handling" key, the kernel's actions. Stack has the methods of SignalStack, Handler what
--   happens when a signal arrives (SignalStack::Handler, HandlerImpl), Calls the functions
--   sigaction, signal (`set_handler`) and sigprocmask that stand before those of the C library.
-- - Windows: rt0/os/Windows. Module is WinModule with the binary search of its function table,
--   Manager the set WinModuleManager, Unwind the unwind codes and GetStackOffset, Frame the
--   functions GetCurFrameInfo, GetCallerFrameInfo and GetCallerRsp, which use all three, Loader the
--   look-up of the file and the symbol of an address.
-- - Sections: rt0/os/Windows/Section.cpp and rt0/os/Macos/Section.cpp, which fill the variables of
--   the metadata sections when the library is loaded. Extent has what both share.
-- - Instance: src.native/rt.instance/instance_bridge.cpp. Api has the three exported calls, Start the
--   two threads of CJCJ_MRT_InstanceNew as a step relation, Handshake what holds of their runs,
-- --   Returns that the call returns.
-- - Bridge: calls between the Cangjie packages and the C++ runtime. Saferegion is
--   rt0/ScopedSaferegion.cpp, AllocBuffer rt0/AllocBufferNative.cpp, SafepointPages the class of
--   rt0/mutator/SafepointPageManager.h.
-- - Heap: src/rt.heap.allocator/CartesianTree.cj, the free units of the heap. CartesianTree has the
--   data and the allocation, Order the invariant, Lower the sinking of a node, BestFit the search
--   (Candidates, Least: what it finds), Take the shortening of a run (Runs: the list, Lowest: the
--   theorem). Insert is MergeInsert: Descend its first loop, Detach and Merge the merges at a node,
--   Rotate its second loop, Added the list of runs, Give the theorem. Roundtrip is about both. Root is
--   the release of the greatest run, Levels the iterators with what uses them.
--   FreeRegionManager is src/rt.heap.allocator/FreeRegionManager.cj: Moves has what a critical section
--   does to a tree, Covers counts the runs that a unit lies in, System the threads that take and give
--   back regions, Turns the loop of TakeRegion, Release the loop of ReleaseGarbageRegions, Blocks the
--   greatest run.
-- - StateWord, StateWord/Fields, StateWord/Lock: src/rt.common/StateWord.cj, the word in front of every
--   object, over the memory and the operations of Atomic.
-- - Loader, Loader/Open: rt0/os/Linux/Loader.cpp and the calls of that name in rt0/os/Windows/Loader.cpp.
-- - GcTib, GcTib/Bits, GcTib/Range: src/rt.objectmodel/GCTib.cj with rt0/GCTibShift.cpp, the bitmap that
--   says which words of an object are references.
-- - Base: names that all share, tests on numbers, lists measured by native numbers, machine words.
-- - Tests: the results below applied to concrete data, and runs of the definitions.
--
-- Numbers of w bits are natural numbers, with the wrap-around written out (`% 2 ^ w`); the sums
-- that Cangjie checks are in Heap, where a sum out of range ends the call. Loops are recursions on
-- lists and trees, or on fuel: `search_loop` has 34 rounds, since each round halves a range of at
-- most 2 ^ 32 indices, `offset_loop` one round more than there are codes, since each round passes
-- a code, and the loops of Heap one round for each node of the tree, since each round passes a
-- node, or for each unit of it; the loops of GcTib have a round more than there are bits; the
-- theorems show that all end before the fuel does. A handle or an address is a number, 0 is
-- `nullptr`, and a function pointer is its address.
--
-- Not modelled: logging, memory orders (each operation is one step), the failure of `new`, the
-- branches for Apple in rt0/signal, the assembly stubs in rt0/arch, the build scripts, the tests,
-- the wrappers of rt0 that hand their arguments to the system, the Cangjie packages other than the
-- two locks, the state word, the bitmaps, the tree and the manager of free units, and the record
-- that RegionInfo keeps of a free run. The C++ runtime behind the bridges, the dynamic loader, the
-- mutexes and mappings of the system, the handlers of the application and the scheduler are
-- parameters of the definitions that call them.
pub mod Base
pub mod Atomic
pub mod Locks
pub mod Windows
pub mod Sections
pub mod Signal
pub mod Instance
pub mod Bridge
pub mod Heap
pub mod StateWord
pub mod Loader
pub mod GcTib
pub mod Tests
