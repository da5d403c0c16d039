-- ===== src/Heap/FreeRegionManager/System.antt =====
-- FreeRegionManager.cj: the threads that take and give back regions, as steps. A critical section
-- of a tree's mutex is one step.
pub mod Sound
use cjcj_runtime.Base.{ℕ, ◌≡◌, List, ◌∷◌, ◌++◌, some}
use cjcj_runtime.Heap.CartesianTree.{Tree, node, CartesianTree, taken, take_units_low_addr}
use cjcj_runtime.Heap.CartesianTree.Root.{release_root_node}
use cjcj_runtime.Heap.FreeRegionManager.{
  FreeRegionManager, done, add_garbage_units, add_release_units,
}

-- The trees, and the runs that the threads hold: those of regions in use, and those that
-- `ReleaseGarbageRegions` has in its hands between its two critical sections.
pub record System : Type 0 where
  pub manager : FreeRegionManager
  pub held : List (ℕ × ℕ)

pub data Step (s : System) : System → Type 0 where
  takes_dirty :
      (num i : ℕ) (t : CartesianTree)
      → take_units_low_addr num s.manager.dirty_unit_tree ≡ taken i t
      → Step s
          (record { manager = record s.manager { dirty_unit_tree = t }; held = (i, num) ∷ s.held })
  takes_released :
      (num i : ℕ) (t : CartesianTree)
      → take_units_low_addr num s.manager.released_unit_tree ≡ taken i t
      → Step s (record {
        manager = record s.manager { released_unit_tree = t };
        held = (i, num) ∷ s.held;
      })
  adds_garbage :
      (i num : ℕ) (a b : List (ℕ × ℕ)) (m : FreeRegionManager)
      → s.held ≡ a ++ (i, num) ∷ b
      → add_garbage_units i num s.manager ≡ done m
      → Step s (record { manager = m; held = a ++ b })
  adds_release :
      (i num : ℕ) (a b : List (ℕ × ℕ)) (m : FreeRegionManager)
      → s.held ≡ a ++ (i, num) ∷ b
      → add_release_units i num s.manager ≡ done m
      → Step s (record { manager = m; held = a ++ b })
  releases_root :
      (l : Tree) (i c : ℕ) (r : Tree) (t : CartesianTree)
      → s.manager.dirty_unit_tree.root ≡ node l i c r
      → release_root_node s.manager.dirty_unit_tree ≡ some t
      → Step s
          (record { manager = record s.manager { dirty_unit_tree = t }; held = (i, c) ∷ s.held })

pub data Reach (s : System) : System → Type 0 where
  here : Reach s s
  next : {t u : System} → Reach s t → Step t u → Reach s u
