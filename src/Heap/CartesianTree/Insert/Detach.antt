-- ===== src/Heap/CartesianTree/Insert/Detach.antt =====
-- CartesianTree.cj, lines 385-466: the neighbour on the far side of a new run, and the subtree
-- without it.
use mathlib.Core.List.{append_assoc}
use mathlib.Core.Path.{subst}
use cjcj_runtime.Base.{
  ℕ, ◌+◌, ◌<◌, ◌≤◌, ◌≡◌, refl, sym, ap, ◌∙◌, List, [], ◌∷◌, ◌++◌, arith, Bool-cases, inl, inr, ◌==◌,
  All,
}
use cjcj_runtime.Heap.CartesianTree.{Tree, null, node, runs, count_of}
use cjcj_runtime.Heap.CartesianTree.Order.{
  IsHeap, IsAscending, IsAscending-split, All-split, All-append, All-map,
}
use cjcj_runtime.Heap.CartesianTree.Insert.{
  Detached, absent, detached, in_left_child, in_right_child, detach_first, detach_last,
}

pub data IsFirst (end_idx : ℕ) (t : Tree) (x : Detached) : Type 0 where
  none_first : x ≡ absent → All (λ (y : ℕ × ℕ). end_idx < y.0) (runs t) → IsFirst end_idx t x
  some_first :
      (d : ℕ) (u : Tree)
      → x ≡ detached end_idx d u
      → runs t ≡ (end_idx, d) ∷ runs u
      → IsHeap u
      → count_of u ≤ count_of t
      → IsFirst end_idx t x

pub data IsLast (start_idx : ℕ) (t : Tree) (x : Detached) : Type 0 where
  none_last :
      x ≡ absent → All (λ (y : ℕ × ℕ). y.0 + y.1 < start_idx) (runs t) → IsLast start_idx t x
  some_last :
      (j d : ℕ) (u : Tree)
      → x ≡ detached j d u
      → j + d ≡ start_idx
      → runs t ≡ runs u ++ (j, d) ∷ []
      → IsHeap u
      → count_of u ≤ count_of t
      → IsLast start_idx t x

module _ (end_idx : ℕ) where
  -- A node that starts at the end of the run has no left child.
  IsFirst-here :
      (l : Tree) (i c : ℕ) (r : Tree)
      → i ≡ end_idx
      → IsHeap (node l i c r)
      → All (λ (y : ℕ × ℕ). y.0 + y.1 < i) (runs l)
      → All (λ (y : ℕ × ℕ). end_idx ≤ y.0) (runs l)
      → IsFirst end_idx (node l i c r) (detach_first end_idx (node l i c r))
  unfolding detach_first runs
  IsFirst-here null i c r e h front far = some_first c r (ground arith) (rw e refl) h.3 h.1
  IsFirst-here (node ll li lc lr) i c r e h front far =
      let (a, (b, x)) =
        All-split (λ (y : ℕ × ℕ). y.0 + y.1 < i) (runs ll) ((li, lc) ∷ runs lr) front in
      let (f, (g, y)) =
        All-split (λ (y : ℕ × ℕ). end_idx ≤ y.0) (runs ll) ((li, lc) ∷ runs lr) far in
      absurd (omega (arith, b, g, e))

  IsFirst-above :
      (l : Tree) (i c : ℕ) (r : Tree) (x : Detached)
      → end_idx < i
      → IsHeap (node l i c r)
      → All (λ (y : ℕ × ℕ). i + c < y.0) (runs r)
      → IsFirst end_idx l x
      → IsFirst end_idx (node l i c r) (in_left_child x i c r)
  unfolding runs
  IsFirst-above l i c r x lt h behind (none_first e all) = none_first (rw e refl) (
      All-append (λ (y : ℕ × ℕ). end_idx < y.0) (runs l) ((i, c) ∷ runs r) all
        (
          lt,
          All-map (λ (y : ℕ × ℕ). i + c < y.0) (λ (y : ℕ × ℕ). end_idx < y.0)
              (λ y k. omega (arith, k, lt)) (runs r) behind,
        ))
  IsFirst-above l i c r x lt h behind (some_first d u e same hu le) =
      some_first d (node u i c r) (rw e refl) (ap (λ (z : List (ℕ × ℕ)). z ++ (i, c) ∷ runs r) same)
        (omega (arith, le, h.0), h.1, hu, h.3) (omega arith)

  pub detach_first-IsFirst :
      (t : Tree)
      → IsHeap t
      → IsAscending (runs t)
      → All (λ (y : ℕ × ℕ). end_idx ≤ y.0) (runs t)
      → IsFirst end_idx t (detach_first end_idx t)
  unfolding detach_first runs
  detach_first-IsFirst null h asc far = none_first refl tt
  detach_first-IsFirst (node l i c r) h asc far =
      let (asc_l, front, behind, asc_r) = IsAscending-split (runs l) (runs r) i c asc in
      let (far_l, (far_i, far_r)) =
        All-split (λ (y : ℕ × ℕ). end_idx ≤ y.0) (runs l) ((i, c) ∷ runs r) far in
      let ih = detach_first-IsFirst l h.2 asc_l far_l in
      elim (Bool-cases (i == end_idx)) [
        | inl here ↦ IsFirst-here l i c r (ground (arith, here)) h front far_l
        | inr other ↦
            let lt : end_idx < i = ground (arith, other, far_i) in
            let e : detach_first end_idx (node l i c r)
                ≡ in_left_child (detach_first end_idx l) i c r =
              ground (arith, lt) in
            subst (IsFirst end_idx (node l i c r)) (sym e)
              (IsFirst-above l i c r (detach_first end_idx l) lt h behind ih)
      ]

module _ (start_idx : ℕ) where
  -- A node that ends at the start of the run has no right child.
  IsLast-here :
      (l : Tree) (i c : ℕ) (r : Tree)
      → i + c ≡ start_idx
      → IsHeap (node l i c r)
      → All (λ (y : ℕ × ℕ). i + c < y.0) (runs r)
      → All (λ (y : ℕ × ℕ). y.0 + y.1 ≤ start_idx) (runs r)
      → IsLast start_idx (node l i c r) (detach_last start_idx (node l i c r))
  unfolding detach_last runs
  IsLast-here l i c null e h behind far = some_last i c l (ground arith) e refl h.2 h.0
  IsLast-here l i c (node rl ri rc rr) e h behind far =
      let (a, (b, x)) =
        All-split (λ (y : ℕ × ℕ). i + c < y.0) (runs rl) ((ri, rc) ∷ runs rr) behind in
      let (f, (g, y)) =
        All-split (λ (y : ℕ × ℕ). y.0 + y.1 ≤ start_idx) (runs rl) ((ri, rc) ∷ runs rr) far in
      absurd (omega (arith, b, g, e))

  IsLast-above :
      (l : Tree) (i c : ℕ) (r : Tree) (x : Detached)
      → i + c < start_idx
      → IsHeap (node l i c r)
      → All (λ (y : ℕ × ℕ). y.0 + y.1 < i) (runs l)
      → IsLast start_idx r x
      → IsLast start_idx (node l i c r) (in_right_child l i c x)
  unfolding runs
  IsLast-above l i c r x lt h front (none_last e all) = none_last (rw e refl) (
      All-append (λ (y : ℕ × ℕ). y.0 + y.1 < start_idx) (runs l) ((i, c) ∷ runs r)
        (All-map (λ (y : ℕ × ℕ). y.0 + y.1 < i) (λ (y : ℕ × ℕ). y.0 + y.1 < start_idx)
          (λ y k. omega (arith, k, lt)) (runs l) front)
        (lt, all))
  IsLast-above l i c r x lt h front (some_last j d u e at same hu le) =
      some_last j d (node l i c u) (rw e refl) at
        (ap (λ (z : List (ℕ × ℕ)). runs l ++ (i, c) ∷ z) same
          ∙ sym (append_assoc (runs l) ((i, c) ∷ runs u) ((j, d) ∷ [])))
        (h.0, omega (arith, le, h.1), h.2, hu) (omega arith)

  pub detach_last-IsLast :
      (t : Tree)
      → IsHeap t
      → IsAscending (runs t)
      → All (λ (y : ℕ × ℕ). y.0 + y.1 ≤ start_idx) (runs t)
      → IsLast start_idx t (detach_last start_idx t)
  unfolding detach_last runs
  detach_last-IsLast null h asc far = none_last refl tt
  detach_last-IsLast (node l i c r) h asc far =
      let (asc_l, front, behind, asc_r) = IsAscending-split (runs l) (runs r) i c asc in
      let (far_l, (far_i, far_r)) =
        All-split (λ (y : ℕ × ℕ). y.0 + y.1 ≤ start_idx) (runs l) ((i, c) ∷ runs r) far in
      let ih = detach_last-IsLast r h.3 asc_r far_r in
      elim (Bool-cases (i + c == start_idx)) [
        | inl here ↦ IsLast-here l i c r (ground (arith, here)) h behind far_r
        | inr other ↦
            let lt : i + c < start_idx = ground (arith, other, far_i) in
            let e : detach_last start_idx (node l i c r)
                ≡ in_right_child l i c (detach_last start_idx r) =
              ground (arith, lt) in
            subst (IsLast start_idx (node l i c r)) (sym e)
              (IsLast-above l i c r (detach_last start_idx r) lt h front ih)
      ]
