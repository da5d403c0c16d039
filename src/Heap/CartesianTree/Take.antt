-- ===== src/Heap/CartesianTree/Take.antt =====
-- CartesianTree.cj, lines 788-797: units taken off the run at a slot, and the
-- invariant of the tree.
pub mod Runs
pub mod Cut
pub mod Lowest
use mathlib.Core.List.{append_assoc}
use cjcj_runtime.Base.{
  ℕ, suc, ◌+◌, ◌-◌, ◌^◌, ◌<◌, ◌≤◌, ◌≡◌, refl, sym, ap, ◌∙◌, List, [], ◌∷◌, ◌++◌, arith, some,
  Bool-cases, inl, inr, ◌==◌, All, if◌then◌else◌,
}
use cjcj_runtime.Heap.CartesianTree.{
  Tree, null, node, Side, left, right, runs, size, count_of, CartesianTree, at_slot, shrink,
}
use cjcj_runtime.Heap.CartesianTree.Order.{IsHeap, IsAscending, At}
use cjcj_runtime.Heap.CartesianTree.Lower.{remove_zero_node-Sunk, lower_non_zero_node-Sunk}

abbrev pub units : List (ℕ × ℕ) → ℕ
units [] = 0
units ((i, c) ∷ rs) = c + units rs

-- The free units are ascending runs below 2 ^ 32, in a heap, and the total is their number.
pub record IsFree (t : CartesianTree) : Type 0 where
  pub heap : IsHeap t.root
  pub ascending : IsAscending (runs t.root)
  pub in_range : All (λ (x : ℕ × ℕ). x.0 + x.1 < 2 ^ 32) (runs t.root)
  pub positive : All (λ (x : ℕ × ℕ). 0 < x.1) (runs t.root)
  pub total : t.total_count ≡ units (runs t.root)

-- What is left of a run after its first `num` units.
abbrev pub rest_of : ℕ → ℕ → ℕ → List (ℕ × ℕ)
rest_of num i c = if c - num == 0 then [] else (i + num, c - num) ∷ []

-- The tree `u` is `t` with the run at `j` shortened.
pub record Shrunk (num : ℕ) (t : Tree) (j d : ℕ) (u : Tree) : Type 0 where
  pub before : List (ℕ × ℕ)
  pub after : List (ℕ × ℕ)
  pub old_runs : runs t ≡ before ++ (j, d) ∷ after
  pub new_runs : runs u ≡ before ++ (rest_of num j d ++ after)
  pub heap : IsHeap u
  pub bound : count_of u ≤ count_of t

shrink-Shrunk :
    (num : ℕ) (l : Tree) (i c : ℕ) (r : Tree)
    → IsHeap (node l i c r)
    → (u : Tree) × (shrink num (node l i c r) ≡ some u) × Shrunk num (node l i c r) i c u
unfolding shrink size runs
shrink-Shrunk num l i c r (a, b, hl, hr) = elim (Bool-cases (c - num == 0)) [
  | inl empty ↦
      let (u, e, s) =
        remove_zero_node-Sunk (suc (size l + size r)) l (i + num) (c - num) r (omega arith) hl hr in
      (
        u,
        ground (arith, empty, e),
        record {
          before = runs l;
          after = runs r;
          old_runs = refl;
          new_runs = rw empty s.same_runs;
          heap = s.heap;
          bound = s.bound c a b (omega arith);
        },
      )
  | inr some_left ↦
      let (u, e, s) =
        lower_non_zero_node-Sunk (suc (size l + size r)) l (i + num) (c - num) r (omega arith) hl
          hr in
      (
        u,
        ground (arith, some_left, e),
        record {
          before = runs l;
          after = runs r;
          old_runs = refl;
          new_runs = rw some_left s.same_runs;
          heap = s.heap;
          bound = s.bound c a b (omega arith);
        },
      )
]

pub at_slot-Shrunk :
    (num : ℕ) (t : Tree) (p : List Side) (j d : ℕ)
    → IsHeap t
    → At t p j d
    → (u : Tree) × (at_slot (shrink num) p t ≡ some u) × Shrunk num t j d u
unfolding at_slot runs
at_slot-Shrunk num null p j d h a = absurd a
at_slot-Shrunk num (node l i c r) [] j d h (e, f) = rw (sym e, sym f) (shrink-Shrunk num l i c r h)
at_slot-Shrunk num (node l i c r) (left ∷ p) j d h a =
    let (u, e, s) = at_slot-Shrunk num l p j d h.2 a in
    (
      node u i c r,
      rw e refl,
      record {
        before = s.before;
        after = s.after ++ (i, c) ∷ runs r;
        old_runs =
            ap (λ (x : List (ℕ × ℕ)). x ++ (i, c) ∷ runs r) s.old_runs
            ∙ append_assoc s.before ((j, d) ∷ s.after) ((i, c) ∷ runs r);
        new_runs =
            ap (λ (x : List (ℕ × ℕ)). x ++ (i, c) ∷ runs r) s.new_runs
            ∙ append_assoc s.before (rest_of num j d ++ s.after) ((i, c) ∷ runs r)
            ∙ ap (◌++◌ s.before) (append_assoc (rest_of num j d) s.after ((i, c) ∷ runs r));
        heap = (omega (arith, s.bound, h.0), h.1, s.heap, h.3);
        bound = omega arith;
      },
    )
at_slot-Shrunk num (node l i c r) (right ∷ p) j d h a =
    let (u, e, s) = at_slot-Shrunk num r p j d h.3 a in
    (
      node l i c u,
      rw e refl,
      record {
        before = runs l ++ (i, c) ∷ s.before;
        after = s.after;
        old_runs =
            ap (λ (x : List (ℕ × ℕ)). runs l ++ (i, c) ∷ x) s.old_runs
            ∙ sym (append_assoc (runs l) ((i, c) ∷ s.before) ((j, d) ∷ s.after));
        new_runs =
            ap (λ (x : List (ℕ × ℕ)). runs l ++ (i, c) ∷ x) s.new_runs
            ∙ sym (append_assoc (runs l) ((i, c) ∷ s.before) (rest_of num j d ++ s.after));
        heap = (h.0, omega (arith, s.bound, h.1), h.2, s.heap);
        bound = omega arith;
      },
    )
