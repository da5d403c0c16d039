-- ===== src/Heap/CartesianTree/Root.antt =====
-- CartesianTree.cj, lines 274-288, 329-357 and 671-677: the total, the greatest run, and its release.
use cjcj_runtime.Base.{
  ℕ, suc, ◌+◌, ◌-◌, ◌≡◌, refl, arith, Option, none, some, ltb, ◌==◌, if◌then◌else◌, true, false,
}
use cjcj_runtime.Heap.CartesianTree.{Tree, null, node, runs, size, CartesianTree, remove_zero_node}
use cjcj_runtime.Heap.CartesianTree.Lower.{remove_zero_node-Sunk}
use cjcj_runtime.Heap.CartesianTree.Take.{IsFree, Shrunk}
use cjcj_runtime.Heap.CartesianTree.Take.Runs.{Shrunk-IsFree}

abbrev pub with_root : ℕ → Option Tree → Option CartesianTree
with_root total none = none
with_root total (some t) = some (record { total_count = total; root = t })

-- `ReleaseRootNode` and `RemoveNode`. The process ends at a root that is null, and where the total
-- is less than the count.
unfoldable pub release_root_node : CartesianTree → Option CartesianTree
unfolding remove_zero_node
release_root_node t = elim t.root [
  | null ↦ none
  | node l i c r ↦
      if ltb t.total_count c
      then none
      else with_root (t.total_count - c) (remove_zero_node (size (node l i 0 r)) (node l i 0 r))
]

-- The tree without the node at its root.
pub record Dropped (total i c : ℕ) (t : Tree) (u : CartesianTree) : Type 0 where
  pub change : Shrunk c t i c u.root
  pub less : u.total_count + c ≡ total
  pub free : IsFree u

-- The root of a tree that satisfies the invariant is released.
pub release_root_node-Dropped :
    (total : ℕ) (l : Tree) (i c : ℕ) (r : Tree)
    → IsFree (record { total_count = total; root = node l i c r })
    → (u : CartesianTree) × (release_root_node (record { total_count = total; root = node l i c r })
        ≡ some u)
      × Dropped total i c (node l i c r) u
unfolding release_root_node runs size
release_root_node-Dropped total l i c r free =
    let (u, e, s) =
      remove_zero_node-Sunk (suc (size l + size r)) l i 0 r (omega arith) free.heap.2 free.heap.3 in
    let change : Shrunk c (node l i c r) i c u = record {
      before = runs l;
      after = runs r;
      old_runs = refl;
      new_runs = let gone : (c - c == 0) ≡ true = ground arith in rw gone s.same_runs;
      heap = s.heap;
      bound = s.bound c free.heap.0 free.heap.1 (omega arith);
    } in
    let (le, f) =
      Shrunk-IsFree c (record { total_count = total; root = node l i c r }) i c u (omega arith) free
        change in
    let covered : ltb total c ≡ false = ground (arith, le) in
    (
      record { total_count = total - c; root = u },
      ground (arith, covered, e),
      record { change = change; less = omega (arith, le); free = f },
    )
