-- ===== src/Heap/FreeRegionManager.antt =====
-- src/rt.heap.allocator/FreeRegionManager.cj: the two trees of free units, the dirty ones, whose
-- memory is still committed, and the released ones. Each tree is changed under its own mutex.
pub mod Covers
pub mod Blocks
pub mod Moves
pub mod System
pub mod Release
pub mod Turns
use cjcj_runtime.Base.{
  ℕ, zero, suc, ◌+◌, ◌*◌, ◌^◌, Bool, true, false, ◌||◌, ltb, leb, if◌then◌else◌, Option, none, some,
  List, [], ◌∷◌,
}
use cjcj_runtime.Heap.CartesianTree.{
  null, node, count_of, CartesianTree, taken, refused, failed, take_units_low_addr,
}
use cjcj_runtime.Heap.CartesianTree.Insert.{Inserted, inserted, rejected, overflow, merge_insert}
use cjcj_runtime.Heap.CartesianTree.Levels.{Queued, clear_tree, get_node_count}
use cjcj_runtime.Heap.CartesianTree.Root.{release_root_node}

pub record FreeRegionManager : Type 0 where
  pub released_unit_tree : CartesianTree
  pub dirty_unit_tree : CartesianTree

-- `RegionInfo.UNIT_SIZE`.
abbrev pub unit_size : ℕ
unit_size = 4096

-- What a call that changes the trees does: it returns, or `RtFatal` ends the process, or an
-- exception or an abort does.
pub data Update : Type 0 where
  done : FreeRegionManager → Update
  rt_fatal : Update
  aborted : Update

abbrev pub with_dirty : FreeRegionManager → Inserted → Update
with_dirty m (inserted t) = done (record m { dirty_unit_tree = t })
with_dirty m rejected = rt_fatal
with_dirty m overflow = aborted

abbrev pub with_released : FreeRegionManager → Inserted → Update
with_released m (inserted t) = done (record m { released_unit_tree = t })
with_released m rejected = rt_fatal
with_released m overflow = aborted

unfoldable pub add_garbage_units : ℕ → ℕ → FreeRegionManager → Update
add_garbage_units idx num m = with_dirty m (merge_insert idx num m.dirty_unit_tree)

unfoldable pub add_release_units : ℕ → ℕ → FreeRegionManager → Update
add_release_units idx num m = with_released m (merge_insert idx num m.released_unit_tree)

-- The state after `Construct`.
abbrev pub empty_tree : CartesianTree
empty_tree = record { total_count = 0; root = null }

unfoldable pub construct : FreeRegionManager
construct = record { released_unit_tree = empty_tree; dirty_unit_tree = empty_tree }

-- `Destroy` clears both trees. `none` would be an iterator that does not end.
abbrev pub emptied :
    Option (List Queued × CartesianTree)
    → Option (List Queued × CartesianTree)
    → Option FreeRegionManager
emptied none released = none
emptied (some d) none = none
emptied (some d) (some r) = some (record { released_unit_tree = r.1; dirty_unit_tree = d.1 })

unfoldable pub destroy : FreeRegionManager → Option FreeRegionManager
unfolding clear_tree
destroy m = emptied (clear_tree m.dirty_unit_tree) (clear_tree m.released_unit_tree)

-- The counts that are read under the mutex of a tree.
unfoldable pub get_dirty_unit_count : FreeRegionManager → ℕ
get_dirty_unit_count m = m.dirty_unit_tree.total_count

unfoldable pub get_released_unit_count : FreeRegionManager → ℕ
get_released_unit_count m = m.released_unit_tree.total_count

-- The count of the root, 0 for none.
unfoldable pub get_dirty_max_block : FreeRegionManager → ℕ
get_dirty_max_block m = count_of m.dirty_unit_tree.root

unfoldable pub get_released_max_block : FreeRegionManager → ℕ
get_released_max_block m = count_of m.released_unit_tree.root

unfoldable pub get_dirty_node_count : FreeRegionManager → Option ℕ
unfolding get_node_count
get_dirty_node_count m = get_node_count m.dirty_unit_tree

unfoldable pub get_released_node_count : FreeRegionManager → Option ℕ
unfolding get_node_count
get_released_node_count m = get_node_count m.released_unit_tree

-- One turn of the loop of `TakeRegion`: what each `CJRT_PagePoolMutexTryLock` returns, with the
-- tree that the thread finds under the mutex. Other threads change the trees between them.
pub record Turn : Type 0 where
  pub dirty : Option CartesianTree
  pub released : Option CartesianTree

-- What `TakeRegion` does: a region with the new tree, or a null region, or it still waits for a
-- mutex at the end of the turns, or it is ended by an exception.
pub data Region : Type 0 where
  from_dirty : ℕ → CartesianTree → Region
  from_released : ℕ → CartesianTree → Region
  no_region : Region
  waiting : Region
  ended : Region

-- One attempt at a tree: whether it is to be tried again, or the call returns.
pub data Attempt : Type 0 where
  again : Bool → Attempt
  returns : Region → Attempt

unfoldable pub attempt : (ℕ → CartesianTree → Region) → Bool → ℕ → Option CartesianTree → Attempt
attempt give try num none = again try
attempt give false num (some t) = again false
attempt give true num (some t) = elim (take_units_low_addr num t) [
  | taken i u ↦ returns (give i u)
  | refused ↦ again false
  | failed ↦ returns ended
]

-- The loop of `TakeRegion`, with `tryDirtyTree` and `tryReleasedTree`.
unfoldable pub take_turns : ℕ → Bool → Bool → List Turn → Region
unfolding attempt
take_turns num try_dirty try_released [] = if try_dirty || try_released then waiting else no_region
take_turns num try_dirty try_released (x ∷ turns) = elim (try_dirty || try_released) [
  | false ↦ no_region
  | true ↦ elim (attempt from_dirty try_dirty num x.dirty) [
    | returns g ↦ g
    | again d ↦ elim (attempt from_released try_released num x.released) [
      | returns g ↦ g
      | again r ↦ take_turns num d r turns
    ]
  ]
]

-- `TakeRegion`. `num` has to fit in a `UInt32`.
unfoldable pub take_region : ℕ → List Turn → Region
unfolding take_turns
take_region num turns = if leb (2 ^ 32) num then ended else take_turns num true true turns

-- What `ReleaseGarbageRegions` does: it returns the bytes that it released, or a failure ends it.
pub data Swept : Type 0 where
  swept : ℕ → FreeRegionManager → Swept
  stopped : Swept
  out_of_fuel : Swept

abbrev pub dirty_bytes : FreeRegionManager → ℕ
dirty_bytes m = m.dirty_unit_tree.total_count * unit_size

abbrev pub give_root : ℕ → ℕ → FreeRegionManager → Option CartesianTree → Update
give_root i c m none = aborted
give_root i c m (some t) = add_release_units i c (record m { dirty_unit_tree = t })

-- The loop, which moves the greatest run of the dirty tree to the released tree in each round.
unfoldable pub release_loop : ℕ → ℕ → ℕ → FreeRegionManager → Swept
unfolding add_release_units
release_loop zero target bytes m = out_of_fuel
release_loop (suc n) target bytes m = elim (ltb target (dirty_bytes m)) [
  | false ↦ swept bytes m
  | true ↦ elim m.dirty_unit_tree.root [
    | null ↦ swept bytes m
    | node l i c r ↦ elim (give_root i c m (release_root_node m.dirty_unit_tree)) [
      | rt_fatal ↦ stopped
      | aborted ↦ stopped
      | done m' ↦ elim (leb (2 ^ 64) (bytes + c * unit_size)) [
        | true ↦ stopped
        | false ↦ release_loop n target (bytes + c * unit_size) m'
      ]
    ]
  ]
]

-- `ReleaseGarbageRegions`. Every round releases a unit.
unfoldable pub release_garbage_regions : ℕ → FreeRegionManager → Swept
unfolding release_loop
release_garbage_regions target m =
    if leb (dirty_bytes m) target
    then swept 0 m
    else release_loop (suc m.dirty_unit_tree.total_count) target 0 m
