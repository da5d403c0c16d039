-- ===== src/Heap/CartesianTree/Lower.antt =====
-- CartesianTree.cj, lines 596-669: a node that sinks.
use mathlib.Core.List.{append_assoc}
use cjcj_runtime.Base.{
  ℕ, zero, suc, ◌+◌, ◌<◌, ◌≤◌, ◌≡◌, refl, sym, ◌∙◌, ap, List, [], ◌∷◌, ◌++◌, arith, some,
  Bool-cases, inl, inr, false, leb,
}
use cjcj_runtime.Heap.CartesianTree.{
  Tree, null, node, runs, size, count_of, is_proper_node, lower_improper_node_once,
  remove_zero_node, lower_non_zero_node,
}
use cjcj_runtime.Heap.CartesianTree.Order.{IsHeap}

-- What sinking a node gives: a heap whose runs are those of the children and `m` between them, and
-- whose greatest count is `c` or that of a child.
pub record Sunk (l : Tree) (c : ℕ) (r : Tree) (m : List (ℕ × ℕ)) (u : Tree) : Type 0 where
  pub same_runs : runs u ≡ runs l ++ (m ++ runs r)
  pub heap : IsHeap u
  pub bound : (k : ℕ) → count_of l ≤ k → count_of r ≤ k → c ≤ k → count_of u ≤ k

-- The node sinks on the left or the right below the root `j`, `d`, which was a child of it.
module _ (c : ℕ) (m : List (ℕ × ℕ)) (j d : ℕ) (u : Tree) (le : c ≤ d) where
  Sunk-left :
      (l rl rr : Tree)
      → IsHeap (node rl j d rr)
      → count_of l ≤ d
      → Sunk l c rl m u
      → Sunk l c (node rl j d rr) m (node u j d rr)
  unfolding runs
  Sunk-left l rl rr (h1, h2, h3, h4) lel s = record {
    same_runs =
        ap (λ (x : List (ℕ × ℕ)). x ++ (j, d) ∷ runs rr) s.same_runs
        ∙ append_assoc (runs l) (m ++ runs rl) ((j, d) ∷ runs rr)
        ∙ ap (◌++◌ (runs l)) (append_assoc m (runs rl) ((j, d) ∷ runs rr));
    heap = (s.bound d lel h1 le, h2, s.heap, h4);
    bound = λ k a b e. b;
  }

  Sunk-right :
      (ll lr r : Tree)
      → IsHeap (node ll j d lr)
      → count_of r ≤ d
      → Sunk lr c r m u
      → Sunk (node ll j d lr) c r m (node ll j d u)
  unfolding runs
  Sunk-right ll lr r (h1, h2, h3, h4) ler s = record {
    same_runs =
        ap (λ (x : List (ℕ × ℕ)). runs ll ++ (j, d) ∷ x) s.same_runs
        ∙ sym (append_assoc (runs ll) ((j, d) ∷ runs lr) (m ++ runs r));
    heap = (h1, s.bound d h2 ler le, h3, s.heap);
    bound = λ k a b e. a;
  }

-- With fuel for each node, the node is taken out and nothing else changes.
pub remove_zero_node-Sunk :
    (n : ℕ) (l : Tree) (i c : ℕ) (r : Tree)
    → size l + size r < n
    → IsHeap l
    → IsHeap r
    → (u : Tree) × (remove_zero_node n (node l i c r) ≡ some u) × Sunk l 0 r [] u
unfolding remove_zero_node lower_improper_node_once size runs
remove_zero_node-Sunk zero l i c r fuel hl hr = absurd (omega arith)
remove_zero_node-Sunk (suc n) null i c null fuel hl hr =
    (null, refl, record { same_runs = refl; heap = tt; bound = λ k a b e. a })
remove_zero_node-Sunk (suc n) null i c (node rl j d rr) fuel hl hr =
    let (u, e, s) = remove_zero_node-Sunk n null i c rl (omega (arith, fuel)) tt hr.2 in
    (node u j d rr, rw e refl, Sunk-left 0 [] j d u (omega arith) null rl rr hr (omega arith) s)
remove_zero_node-Sunk (suc n) (node ll j d lr) i c null fuel hl hr =
    let (u, e, s) = remove_zero_node-Sunk n lr i c null (omega (arith, fuel)) hl.3 tt in
    (node ll j d u, rw e refl, Sunk-right 0 [] j d u (omega arith) ll lr null hl (omega arith) s)
remove_zero_node-Sunk (suc n) (node ll lj ld lr) i c (node rl j d rr) fuel hl hr =
    elim (Bool-cases (leb ld d)) [
      | inl le ↦
          let (u, e, s) =
            remove_zero_node-Sunk n (node ll lj ld lr) i c rl (omega (arith, fuel)) hl hr.2 in
          (
            node u j d rr,
            ground (arith, le, e),
            Sunk-left 0 [] j d u (omega arith) (node ll lj ld lr) rl rr hr (ground arith) s,
          )
      | inr gt ↦
          let (u, e, s) =
            remove_zero_node-Sunk n lr i c (node rl j d rr) (omega (arith, fuel)) hl.3 hr in
          (
            node ll lj ld u,
            ground (arith, gt, e),
            Sunk-right 0 [] lj ld u (omega arith) ll lr (node rl j d rr) hl (ground arith) s,
          )
    ]

-- One round of `lower_non_zero_node` at a node that has a greater child, when the rounds after it
-- are right.
sink :
    (n i c : ℕ)
    → ((l r : Tree)
        → size l + size r < n
        → IsHeap l
        → IsHeap r
        → (u : Tree) × (lower_non_zero_node n (node l i c r) ≡ some u) × Sunk l c r ((i, c) ∷ []) u)
    → (l r : Tree) → size l + size r < suc n
    → IsHeap l
    → IsHeap r
    → is_proper_node l c r ≡ false
    → (u : Tree) × (lower_non_zero_node (suc n) (node l i c r) ≡ some u)
      × Sunk l c r ((i, c) ∷ []) u
unfolding lower_non_zero_node is_proper_node lower_improper_node_once size
sink n i c ih null null fuel hl hr h = absurd (ground arith)
sink n i c ih null (node rl j d rr) fuel hl hr h =
    let (u, e, s) = ih null rl (omega (arith, fuel)) tt hr.2 in
    (
      node u j d rr,
      ground (arith, h, e),
      Sunk-left c ((i, c) ∷ []) j d u (ground arith) null rl rr hr (omega arith) s,
    )
sink n i c ih (node ll j d lr) null fuel hl hr h =
    let (u, e, s) = ih lr null (omega (arith, fuel)) hl.3 tt in
    (
      node ll j d u,
      ground (arith, h, e),
      Sunk-right c ((i, c) ∷ []) j d u (ground arith) ll lr null hl (omega arith) s,
    )
sink n i c ih (node ll lj ld lr) (node rl j d rr) fuel hl hr h = elim (Bool-cases (leb ld d)) [
  | inl le ↦
      let (u, e, s) = ih (node ll lj ld lr) rl (omega (arith, fuel)) hl hr.2 in
      (
        node u j d rr,
        ground (arith, h, le, e),
        Sunk-left c ((i, c) ∷ []) j d u (ground arith) (node ll lj ld lr) rl rr hr (ground arith) s,
      )
  | inr gt ↦
      let (u, e, s) = ih lr (node rl j d rr) (omega (arith, fuel)) hl.3 hr in
      (
        node ll lj ld u,
        ground (arith, h, gt, e),
        Sunk-right c ((i, c) ∷ []) lj ld u (ground arith) ll lr (node rl j d rr) hl (ground arith)
            s,
      )
]

-- With fuel for each node, the node sinks until no child has a greater count.
pub lower_non_zero_node-Sunk :
    (n : ℕ) (l : Tree) (i c : ℕ) (r : Tree)
    → size l + size r < n
    → IsHeap l
    → IsHeap r
    → (u : Tree) × (lower_non_zero_node n (node l i c r) ≡ some u) × Sunk l c r ((i, c) ∷ []) u
unfolding lower_non_zero_node is_proper_node lower_improper_node_once size runs
lower_non_zero_node-Sunk zero l i c r fuel hl hr = absurd (omega arith)
lower_non_zero_node-Sunk (suc n) l i c r fuel hl hr = elim (Bool-cases (is_proper_node l c r)) [
  | inl proper ↦ (
    node l i c r,
    ground (arith, proper),
    record { same_runs = refl; heap = (ground arith, ground arith, hl, hr); bound = λ k a b e. e },
  )
  | inr improper ↦
      sink n i c (λ x y f a b. lower_non_zero_node-Sunk n x i c y f a b) l r fuel hl hr improper
]
