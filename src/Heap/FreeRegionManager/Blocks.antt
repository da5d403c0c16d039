-- ===== src/Heap/FreeRegionManager/Blocks.antt =====
-- FreeRegionManager.cj, lines 104-137 and 270-286: the greatest run of a tree.
use mathlib.Core.Path.{subst}
use cjcj_runtime.Base.{
  some, ℕ, ◌<◌, ◌≤◌, ◌≡◌, ◌⊎◌, refl, ◌∷◌, arith, All, Bool-cases, inl, inr, leb,
}
use cjcj_runtime.Heap.CartesianTree.{
  Tree, null, node, runs, count_of, CartesianTree, taken, refused, take_units_low_addr,
}
use cjcj_runtime.Heap.CartesianTree.Order.{All-split}
use cjcj_runtime.Heap.CartesianTree.Take.Lowest.{take_units_low_addr-BestFit}
use cjcj_runtime.Heap.CartesianTree.Levels.Visit.{clear_tree-get_node_count}
use cjcj_runtime.Heap.CartesianTree.Levels.Fit.{heap-bound}
use cjcj_runtime.Heap.FreeRegionManager.{FreeRegionManager, get_dirty_max_block, construct, destroy}
use cjcj_runtime.Heap.FreeRegionManager.Release.{AreFree}

-- The root of a tree that is not empty is one of its runs.
root_run :
    (P : ℕ × ℕ → Type 0) (t : Tree) → 0 < count_of t → All P (runs t) → (i : ℕ) × P (i, count_of t)
unfolding runs
root_run P null h all = absurd (omega arith)
root_run P (node l i c r) h all =
    let (_, (p, _)) = All-split P (runs l) ((i, c) ∷ runs r) all in (i, p)

-- Among the dirty units the manager can serve a request of at least one unit exactly if it is not
-- greater than the block that `GetDirtyMaxBlock` says.
pub get_dirty_max_block-take :
    (num : ℕ) (m : FreeRegionManager)
    → 0 < num
    → AreFree m
    → ((num ≤ get_dirty_max_block m)
        × (i : ℕ) × (u : CartesianTree) × (take_units_low_addr num m.dirty_unit_tree ≡ taken i u))
      ⊎ ((get_dirty_max_block m < num) × (take_units_low_addr num m.dirty_unit_tree ≡ refused))
unfolding get_dirty_max_block
get_dirty_max_block-take num m positive free =
    let t = m.dirty_unit_tree in
    elim (take_units_low_addr-BestFit num t positive free.dirty) [
      | inl b ↦ inl (
        elim (Bool-cases (leb num (count_of t.root))) [
          | inl fits ↦ ground (arith, fits)
          | inr low ↦
              let short = heap-bound num t.root free.dirty.heap (ground (arith, low)) in
              let (_, (this, _)) =
                All-split (λ (x : ℕ × ℕ). x.1 < num) b.change.before
                  ((b.index, b.count) ∷ b.change.after)
                  (subst (All (λ (x : ℕ × ℕ). x.1 < num)) b.change.old_runs short) in
              absurd (omega (arith, this, b.enough))
        ],
        b.index,
        b.after,
        b.returned,
      )
      | inr (r, all) ↦ inr (
        elim (Bool-cases (leb num (count_of t.root))) [
          | inl fits ↦
              let le : num ≤ count_of t.root = ground (arith, fits) in
              let (i, short) = root_run (λ (x : ℕ × ℕ). x.1 < num) t.root (omega (arith, le)) all in
              absurd (omega (arith, le, short))
          | inr low ↦ ground (arith, low)
        ],
        r,
      )
    ]

-- The trees are in order after `Construct`.
pub construct-AreFree : AreFree construct
unfolding construct runs
construct-AreFree = record {
  dirty = record { heap = tt; ascending = tt; in_range = tt; positive = tt; total = refl };
  released = record { heap = tt; ascending = tt; in_range = tt; positive = tt; total = refl };
  once = λ k. omega arith;
}

-- `Destroy` leaves the manager as `Construct` has made it.
pub destroy-construct : (m : FreeRegionManager) → destroy m ≡ some construct
unfolding destroy construct
destroy-construct m =
    let (x, e, _, _) = clear_tree-get_node_count m.dirty_unit_tree in
    let (y, f, _, _) = clear_tree-get_node_count m.released_unit_tree in ground (arith, e, f)
