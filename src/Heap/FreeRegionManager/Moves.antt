-- ===== src/Heap/FreeRegionManager/Moves.antt =====
-- FreeRegionManager.cj, lines 187-251 and 314-321: the critical sections, each on one tree.
use mathlib.Core.Path.{subst}
use cjcj_runtime.Base.{
  ℕ, zero, suc, ◌+◌, ◌^◌, ◌<◌, ◌≤◌, ◌≡◌, ◌≢◌, sym, ◌∙◌, List, ◌∷◌, ◌++◌, arith, inl, inr, All, some,
}
use cjcj_runtime.Heap.CartesianTree.{
  Tree, null, node, runs, CartesianTree, taken, failed, take_units_low_addr,
}
use cjcj_runtime.Heap.CartesianTree.Order.{All-split}
use cjcj_runtime.Heap.CartesianTree.Take.{IsFree}
use cjcj_runtime.Heap.CartesianTree.Take.Lowest.{BestFit, take_units_low_addr-BestFit}
use cjcj_runtime.Heap.CartesianTree.Insert.{inserted, merge_insert}
use cjcj_runtime.Heap.CartesianTree.Insert.Give.{merge_insert-Given}
use cjcj_runtime.Heap.CartesianTree.Root.{release_root_node, release_root_node-Dropped}
use cjcj_runtime.Heap.FreeRegionManager.Covers.{
  holds, covers, covers-Shrunk, covers-Added, covers-AreApart,
}

-- The run of `num` units from `i` has left the tree `t`, and `u` is what is left of it.
pub record Left (t : CartesianTree) (i num : ℕ) (u : CartesianTree) : Type 0 where
  pub positive : 0 < num
  pub in_range : i + num < 2 ^ 32
  pub units : (k : ℕ) → covers k (runs t.root) ≡ covers k (runs u.root) + holds k i num
  pub total : u.total_count + num ≡ t.total_count
  pub free : IsFree u

-- The run has entered the tree `t`, and `u` is the tree with it.
pub record Entered (t : CartesianTree) (i num : ℕ) (u : CartesianTree) : Type 0 where
  pub units : (k : ℕ) → covers k (runs u.root) ≡ covers k (runs t.root) + holds k i num
  pub total : u.total_count ≡ t.total_count + num
  pub free : IsFree u

-- A run of the tree is in range.
old-in_range :
    (t : CartesianTree) (before after : List (ℕ × ℕ)) (i c : ℕ)
    → IsFree t
    → runs t.root ≡ before ++ (i, c) ∷ after
    → (i + c < 2 ^ 32) × (0 < c)
old-in_range t before after i c free e =
    let (_, (range, _)) =
      All-split (λ (x : ℕ × ℕ). x.0 + x.1 < 2 ^ 32) before ((i, c) ∷ after)
        (subst (All (λ (x : ℕ × ℕ). x.0 + x.1 < 2 ^ 32)) e free.in_range) in
    let (_, (some_units, _)) =
      All-split (λ (x : ℕ × ℕ). 0 < x.1) before ((i, c) ∷ after)
        (subst (All (λ (x : ℕ × ℕ). 0 < x.1)) e free.positive) in
    (range, some_units)

taken-Left :
    (num : ℕ) (t : CartesianTree)
    → 0 < num
    → IsFree t
    → (b : BestFit num t (take_units_low_addr num t)) → Left t b.index num b.after
taken-Left num t positive free b =
    let s = b.change in
    let (range, _) = old-in_range t s.before s.after b.index b.count free s.old_runs in
    record {
      positive = positive;
      in_range = omega (arith, range, b.enough);
      units = λ k. covers-Shrunk k num t.root b.index b.count b.after.root b.enough s;
      total = b.total;
      free = b.free;
    }

pub take_units_low_addr-Left :
    (num : ℕ) (t u : CartesianTree) (i : ℕ)
    → IsFree t
    → take_units_low_addr num t ≡ taken i u
    → Left t i num u
unfolding take_units_low_addr
take_units_low_addr-Left zero t u i free e = absurd (cc)
take_units_low_addr-Left (suc n) t u i free e =
    elim (take_units_low_addr-BestFit (suc n) t (omega arith) free) [
      | inl b ↦
          let same = sym b.returned ∙ e in
          let at : b.index ≡ i = cc same in
          let tree : b.after ≡ u = cc same in
          subst (λ (x : ℕ). Left t x (suc n) u) at
            (subst (Left t b.index (suc n)) tree (taken-Left (suc n) t (omega arith) free b))
      | inr (r, all) ↦ absurd (cc (r, e))
    ]

pub take_units_low_addr-failed :
    (num : ℕ) (t : CartesianTree) → IsFree t → take_units_low_addr num t ≢ failed
unfolding take_units_low_addr
take_units_low_addr-failed zero t free = λ e. cc
take_units_low_addr-failed (suc n) t free =
    elim (take_units_low_addr-BestFit (suc n) t (omega arith) free) [
      | inl b ↦ λ e. cc (b.returned, e)
      | inr (r, all) ↦ λ e. cc (r, e)
    ]

-- A run of which no unit is in the tree can be given to it.
pub merge_insert-Entered :
    (idx num : ℕ) (t : CartesianTree)
    → 0 < num
    → idx + num < 2 ^ 32
    → ((k : ℕ) → covers k (runs t.root) + holds k idx num ≤ 1)
    → IsFree t
    → (u : CartesianTree) × (merge_insert idx num t ≡ inserted u) × Entered t idx num u
merge_insert-Entered idx num t positive in_range once free =
    let g =
      merge_insert-Given idx num t positive in_range
        (covers-AreApart idx num (runs t.root) positive free.positive once) free in
    (
      g.tree,
      g.returned,
      record {
        units = λ k. covers-Added k idx num (runs t.root) (runs g.tree.root) g.added;
        total = g.total;
        free = g.free;
      },
    )

-- The greatest run can be released.
pub release_root_node-Left :
    (total : ℕ) (l : Tree) (i c : ℕ) (r : Tree)
    → IsFree (record { total_count = total; root = node l i c r })
    → (u : CartesianTree) × (release_root_node (record { total_count = total; root = node l i c r })
        ≡ some u)
      × Left (record { total_count = total; root = node l i c r }) i c u
release_root_node-Left total l i c r free =
    let t : CartesianTree = record { total_count = total; root = node l i c r } in
    let (u, e, d) = release_root_node-Dropped total l i c r free in
    let s = d.change in
    let (range, positive) = old-in_range t s.before s.after i c free s.old_runs in
    (
      u,
      e,
      record {
        positive = positive;
        in_range = range;
        units = λ k. covers-Shrunk k c t.root i c u.root (omega arith) s;
        total = d.less;
        free = d.free;
      },
    )

-- What the release of the greatest run does to a tree.
pub release_root_node-some :
    (total : ℕ) (root l : Tree) (i c : ℕ) (r : Tree) (u : CartesianTree)
    → IsFree (record { total_count = total; root = root })
    → root ≡ node l i c r
    → release_root_node (record { total_count = total; root = root }) ≡ some u
    → Left (record { total_count = total; root = root }) i c u
release_root_node-some total null l i c r u free e h = absurd (cc)
release_root_node-some total (node x j d y) l i c r u free e h =
    let t : CartesianTree = record { total_count = total; root = node x j d y } in
    let (v, g, left) = release_root_node-Left total x j d y free in
    let at : j ≡ i = cc e in
    let count : d ≡ c = cc e in
    let tree : v ≡ u = cc (g, h) in
    subst (λ (k : ℕ). Left t k c u) at
      (subst (λ (k : ℕ). Left t j k u) count (subst (Left t j d) tree left))
