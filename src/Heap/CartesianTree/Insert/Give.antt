-- ===== src/Heap/CartesianTree/Insert/Give.antt =====
-- CartesianTree.cj, lines 293-309: MergeInsert.
use mathlib.Core.Path.{subst}
use mathlib.Core.List.{append-nil}
use cjcj_runtime.Base.{
  ℕ, ◌+◌, ◌^◌, ◌<◌, ◌≤◌, ◌≡◌, refl, sym, ◌∙◌, List, [], ◌∷◌, ◌++◌, arith, All, false, ◌==◌, leb,
}
use cjcj_runtime.Heap.CartesianTree.{Tree, null, node, runs, CartesianTree}
use cjcj_runtime.Heap.CartesianTree.Order.{IsHeap, IsAscending}
use cjcj_runtime.Heap.CartesianTree.Take.{IsFree}
use cjcj_runtime.Heap.CartesianTree.Insert.{
  descend, ascend, ascend_from, with_total, Inserted, inserted, merge_insert, merge_insert_internal,
}
use cjcj_runtime.Heap.CartesianTree.Insert.Rotate.{ascend-Restored}
use cjcj_runtime.Heap.CartesianTree.Insert.Merge.{Entered}
use cjcj_runtime.Heap.CartesianTree.Insert.Added.{
  AreApart, Added, Added-IsAscending, Added-All, Added-units, units-bound,
}
use cjcj_runtime.Heap.CartesianTree.Insert.Descend.{descend-Landed}

pub All-any : (xs : List (ℕ × ℕ)) → All (λ (x : ℕ × ℕ). 0 ≤ x.0) xs
All-any [] = tt
All-any (x ∷ xs) = ((omega arith), All-any xs)

-- The run has been given back: `after` is the tree with it.
pub record Given (idx num : ℕ) (t : CartesianTree) (result : Inserted) : Type 0 where
  pub tree : CartesianTree
  pub returned : result ≡ inserted tree
  pub added : Added idx num (runs t.root) (runs tree.root)
  pub total : tree.total_count ≡ t.total_count + num
  pub free : IsFree tree

-- With a run that is not empty and in range the loops are what decides, also at an empty root.
merge_insert-ascend :
    (idx num total : ℕ) (root : Tree)
    → 0 < num
    → idx + num < 2 ^ 32
    → merge_insert idx num (record { total_count = total; root = root })
      ≡ with_total (total + num) (ascend_from idx num (descend idx num root []))
unfolding merge_insert merge_insert_internal
merge_insert-ascend idx num total null positive in_range = unfold descend ascend in refl
merge_insert-ascend idx num total (node l i c r) positive in_range =
    let some_units : (num == 0) ≡ false = ground arith in
    let fits : leb (2 ^ 32) (idx + num) ≡ false = ground (arith, in_range) in
    ground (arith, some_units, fits)

module _ (idx num : ℕ) (t : CartesianTree) (positive : 0 < num) (in_range : idx + num < 2 ^ 32)
    (apart : All (AreApart idx num) (runs t.root)) (free : IsFree t) where
  -- A tree with the run added is free, and its total stays in range.
  Added-IsFree :
      (u : Tree)
      → IsHeap u
      → Added idx num (runs t.root) (runs u)
      → (t.total_count + num < 2 ^ 32)
        × IsFree (record { total_count = t.total_count + num; root = u })
  Added-IsFree u h a =
      let asc = Added-IsAscending idx num (runs t.root) (runs u) a free.ascending in
      let range =
        Added-All idx num (runs t.root) (runs u) a (λ (x : ℕ × ℕ). x.0 + x.1 < 2 ^ 32) in_range
          (λ x y e p q. omega (arith, e, q)) free.in_range in
      let positives =
        Added-All idx num (runs t.root) (runs u) a (λ (x : ℕ × ℕ). 0 < x.1) positive
          (λ x y e p q. omega (arith, p)) free.positive in
      let sum = Added-units idx num (runs t.root) (runs u) a in
      let low = All-any (runs u) in
      (
        omega (arith, sum, free.total, units-bound 0 (2 ^ 32) (runs u) asc low range),
        record {
          heap = h;
          ascending = asc;
          in_range = range;
          positive = positives;
          total = omega (arith, sum, free.total);
        },
      )

  -- A run of at least one unit, whose end lies below 2 ^ 32 and which overlaps no free run, is given
  -- back to a tree that satisfies the invariant: the insertion
  -- ends and never fails. The run is added to the others, merged with the run that ends where it
  -- starts and the one that starts where it ends, if they are there; no other run changes, the
  -- total grows by `num`, and the invariant holds again.
  pub merge_insert-Given : Given idx num t (merge_insert idx num t)
  merge_insert-Given =
      let landed = descend-Landed idx num positive [] t.root entered in
      let a = landed.arrived in
      let up =
        ascend-Restored idx num landed.way landed.tree a.kids a.heap a.small a.heap_above a.leads in
      let added : Added idx num (runs t.root) (runs up.tree) =
        subst (λ (x : List (ℕ × ℕ)). Added idx num x (runs up.tree)) (append-nil (runs t.root))
          (subst (Added idx num (runs t.root ++ [])) (sym up.same_runs) a.added) in
      let (small, f) = Added-IsFree up.tree up.heap added in
      let fits : leb (2 ^ 32) (t.total_count + num) ≡ false = ground (arith, small) in
      record {
        tree = record { total_count = t.total_count + num; root = up.tree };
        returned =
            merge_insert-ascend idx num t.total_count t.root positive in_range
            ∙ rw (landed.ended, up.ended, fits) refl;
        added = added;
        total = refl;
        free = f;
      }
    where
      entered : Entered idx num [] t.root
      entered = record {
        ascending = subst IsAscending (sym (append-nil (runs t.root))) free.ascending;
        below = tt;
        above = tt;
        apart = apart;
        heap = free.heap;
        heap_above = tt;
        leads = tt;
      }
