-- ===== src/Tests/FreeRegions.antt =====
-- Runs of the two trees of free units: threads that take a region, give it back and release garbage.
use cjcj_runtime.Base.{◌<◌, ◌⊎◌, ℕ, ◌≡◌, ◌≢◌, ◌≤◌, refl, arith, List, [], ◌∷◌, none, some}
use cjcj_runtime.Heap.CartesianTree.{
  taken, refused, null, node, runs, CartesianTree, failed, take_units_low_addr,
  find_best_fit_low_addr, size, take_at, shrink,
}
use cjcj_runtime.Heap.CartesianTree.Take.{IsFree}
use cjcj_runtime.Heap.CartesianTree.Insert.{merge_insert, merge_insert_internal}
use cjcj_runtime.Heap.CartesianTree.Root.{release_root_node}
use cjcj_runtime.Heap.FreeRegionManager.Blocks.{get_dirty_max_block-take}
use cjcj_runtime.Heap.FreeRegionManager.{
  get_dirty_max_block, construct, FreeRegionManager, done, add_garbage_units, add_release_units,
  swept, dirty_bytes, release_garbage_regions, Turn, take_region,
}
use cjcj_runtime.Heap.FreeRegionManager.System.{
  System, Reach, here, next, takes_dirty, releases_root,
}
use cjcj_runtime.Heap.FreeRegionManager.System.Sound.{
  IsSound, places, Reach-IsSound, Reach-returns, Reach-takes,
}
use cjcj_runtime.Heap.FreeRegionManager.Release.{
  AreFree, Released, release_garbage_regions-Released,
}
use cjcj_runtime.Heap.FreeRegionManager.Turns.{Explains, take_region-Explains}

-- 5 units from 10 and 9 from 30.
abbrev dirty : CartesianTree
dirty = record { total_count = 14; root = node (node null 10 5 null) 30 9 null }

abbrev empty : CartesianTree
empty = record { total_count = 0; root = null }

-- 4 units from 15.
abbrev released : CartesianTree
released = record { total_count = 4; root = node null 15 4 null }

dirty-IsFree : IsFree dirty
unfolding runs
dirty-IsFree = record {
  heap = ground arith;
  ascending = ground arith;
  in_range = ground arith;
  positive = ground arith;
  total = refl;
}

released-IsFree : IsFree released
unfolding runs
released-IsFree = record {
  heap = ground arith;
  ascending = ground arith;
  in_range = ground arith;
  positive = ground arith;
  total = refl;
}

abbrev manager : FreeRegionManager
manager = record { released_unit_tree = released; dirty_unit_tree = dirty }

-- A thread has the region of 2 units from 60.
abbrev first : System
first = record { manager = manager; held = (60, 2) ∷ [] }

first-IsSound : IsSound first
unfolding runs
first-IsSound = record {
  dirty = dirty-IsFree;
  released = released-IsFree;
  held_runs = ground arith;
  once = λ k. ground arith;
}

-- A thread takes 5 units, and the greatest dirty run is released.
abbrev last : System
last = record {
  manager = record { released_unit_tree = released; dirty_unit_tree = empty };
  held = (30, 9) ∷ (10, 5) ∷ (60, 2) ∷ [];
}

first-last : Reach first last
unfolding take_units_low_addr release_root_node find_best_fit_low_addr size take_at shrink
first-last =
    next
      (next here (takes_dirty 5 10 (record { total_count = 9; root = node null 30 9 null }) refl))
      (releases_root null 30 9 null empty refl refl)

Reach-IsSound_example : IsSound last × ((k : ℕ) → places k last ≡ places k first)
Reach-IsSound_example = Reach-IsSound first-IsSound first-last

Reach-returns_example :
    ((m : FreeRegionManager) × (add_garbage_units 10 5 last.manager ≡ done m))
    × ((m : FreeRegionManager) × (add_release_units 10 5 last.manager ≡ done m))
Reach-returns_example =
    Reach-returns 10 5 ((30, 9) ∷ []) ((60, 2) ∷ []) first-IsSound first-last refl

Reach-takes_example :
    (take_units_low_addr 3 last.manager.dirty_unit_tree ≢ failed)
    × (take_units_low_addr 3 last.manager.released_unit_tree ≢ failed)
Reach-takes_example = Reach-takes 3 first-IsSound first-last

manager-AreFree : AreFree manager
unfolding runs
manager-AreFree = record {
  dirty = dirty-IsFree;
  released = released-IsFree;
  once = λ k. ground arith;
}

release_garbage_regions-Released_example :
    (bytes : ℕ) × (m : FreeRegionManager) × (release_garbage_regions 4096 manager ≡ swept bytes m)
    × Released bytes manager m
    × (dirty_bytes m ≤ 4096)
release_garbage_regions-Released_example =
    release_garbage_regions-Released 4096 manager manager-AreFree

-- The greatest run alone is released where it is enough.
one_run :
    release_garbage_regions 20480 manager
    ≡ swept 36864 (record {
      released_unit_tree = record { total_count = 13; root = node (node null 15 4 null) 30 9 null };
      dirty_unit_tree = record { total_count = 5; root = node null 10 5 null };
    })
unfolding release_garbage_regions release_root_node size merge_insert merge_insert_internal
one_run = refl

-- Both mutexes are taken at first; then the released tree is found to be too small too.
abbrev turns : List Turn
turns =
    record { dirty = none; released = some released }
    ∷ record { dirty = some dirty; released = some released }
    ∷ []

take_region-Explains_example : Explains 12 turns (take_region 12 turns)
take_region-Explains_example =
    take_region-Explains 12 turns (omega arith) (omega arith)
      ((tt, released-IsFree), ((dirty-IsFree, released-IsFree), tt))

-- The greatest dirty run has 9 units.
get_dirty_max_block-take_example :
    ((9 ≤ get_dirty_max_block manager)
      × (i : ℕ) × (u : CartesianTree) × (take_units_low_addr 9 dirty ≡ taken i u))
    ⊎ ((get_dirty_max_block manager < 9) × (take_units_low_addr 9 dirty ≡ refused))
get_dirty_max_block-take_example = get_dirty_max_block-take 9 manager (omega arith) manager-AreFree

-- No unit can be taken from the trees as they are constructed.
get_dirty_max_block_at_first : get_dirty_max_block construct ≡ 0
unfolding get_dirty_max_block construct
get_dirty_max_block_at_first = refl
