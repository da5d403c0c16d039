-- ===== src/Heap/CartesianTree/Insert/Rotate.antt =====
-- CartesianTree.cj, lines 507-560: the second loop of MergeInsertInternal, with the rotations.
use mathlib.Core.List.{append_assoc, append-nil}
use cjcj_runtime.Base.{
  ℕ, ◌+◌, ◌<◌, ◌≤◌, ◌≡◌, refl, sym, ap, ◌∙◌, List, [], ◌∷◌, ◌++◌, arith, some, Bool-cases, inl, inr,
  ltb,
}
use cjcj_runtime.Heap.CartesianTree.{Tree, null, node, runs, count_of}
use cjcj_runtime.Heap.CartesianTree.Order.{IsHeap}
use cjcj_runtime.Heap.CartesianTree.Insert.{
  Frame, on_left, on_right, fill, plug, round, rotated, ends, ascend,
}

-- The runs to the left and to the right of a slot.
abbrev pub before : List Frame → List (ℕ × ℕ)
before [] = []
before (on_left i c r ∷ path) = before path
before (on_right l i c ∷ path) = before path ++ (runs l ++ (i, c) ∷ [])

abbrev pub after : List Frame → List (ℕ × ℕ)
after [] = []
after (on_left i c r ∷ path) = (i, c) ∷ (runs r ++ after path)
after (on_right l i c ∷ path) = after path

pub runs-fill :
    (f : Frame) (path : List Frame) (t : Tree)
    → before path ++ (runs (fill f t) ++ after path)
      ≡ before (f ∷ path) ++ (runs t ++ after (f ∷ path))
unfolding runs
runs-fill (on_left i c r) path t =
    ap (◌++◌ (before path)) (append_assoc (runs t) ((i, c) ∷ runs r) (after path))
runs-fill (on_right l i c) path t =
    ap (λ (x : List (ℕ × ℕ)). before path ++ (x ++ after path))
      (sym (append_assoc (runs l) ((i, c) ∷ []) (runs t)))
    ∙ ap (◌++◌ (before path)) (append_assoc (runs l ++ (i, c) ∷ []) (runs t) (after path))
    ∙ sym (append_assoc (before path) (runs l ++ (i, c) ∷ []) (runs t ++ after path))

pub runs-plug :
    (path : List Frame) (t : Tree) → runs (plug path t) ≡ before path ++ (runs t ++ after path)
unfolding plug
runs-plug [] t = sym (append-nil (runs t))
runs-plug (f ∷ path) t = runs-plug path (fill f t) ∙ runs-fill f path t

-- The nodes above a slot are a heap over a subtree with at most `k` units at its root.
abbrev pub IsHeapAbove : List Frame → ℕ → Type 0
IsHeapAbove [] k = Unit
IsHeapAbove (on_left i c r ∷ path) k = (k ≤ c) × (count_of r ≤ c) × IsHeap r × IsHeapAbove path c
IsHeapAbove (on_right l i c ∷ path) k = (k ≤ c) × (count_of l ≤ c) × IsHeap l × IsHeapAbove path c

-- The way to a slot is the way to the run of `num` units at `idx`.
abbrev pub LeadsTo : ℕ → ℕ → List Frame → Type 0
LeadsTo idx num [] = Unit
LeadsTo idx num (on_left i c r ∷ path) = (idx + num < i) × LeadsTo idx num path
LeadsTo idx num (on_right l i c ∷ path) = (i + c < idx) × LeadsTo idx num path

-- The children of a root have at most `k` units.
abbrev pub HasSmallKids : Tree → ℕ → Type 0
HasSmallKids null k = Unit
HasSmallKids (node l i c r) k = (count_of l ≤ k) × (count_of r ≤ k)

plug-IsHeap :
    (path : List Frame) (t : Tree) → IsHeap t → IsHeapAbove path (count_of t) → IsHeap (plug path t)
unfolding plug
plug-IsHeap [] t h a = h
plug-IsHeap (on_left i c r ∷ path) t h (k, s, hr, a) =
    plug-IsHeap path (node t i c r) (k, s, h, hr) a
plug-IsHeap (on_right l i c ∷ path) t h (k, s, hl, a) =
    plug-IsHeap path (node l i c t) (s, k, hl, h) a

-- The second loop has ended with a heap over the same runs.
pub record Restored (idx num : ℕ) (path : List Frame) (t : Tree) : Type 0 where
  pub tree : Tree
  pub ended : ascend idx num path t ≡ some tree
  pub same_runs : runs tree ≡ before path ++ (runs t ++ after path)
  pub heap : IsHeap tree

module _ (idx num : ℕ) (f : Frame) (path : List Frame) (t : Tree) where
  -- The loop ends at a node whose child is not greater.
  Restored-ends :
      round idx num (fill f t) ≡ ends → IsHeap (plug (f ∷ path) t) → Restored idx num (f ∷ path) t
  unfolding ascend
  Restored-ends e h = record {
    tree = plug (f ∷ path) t;
    ended = ground (arith, e);
    same_runs = runs-plug (f ∷ path) t;
    heap = h;
  }

  -- The loop goes on above a rotated node.
  Restored-rotated :
      (u : Tree)
      → round idx num (fill f t) ≡ rotated u
      → runs u ≡ runs (fill f t)
      → Restored idx num path u
      → Restored idx num (f ∷ path) t
  unfolding ascend
  Restored-rotated u e same r = record {
    tree = r.tree;
    ended = ground (arith, e, r.ended);
    same_runs =
        r.same_runs
        ∙ ap (λ (x : List (ℕ × ℕ)). before path ++ (x ++ after path)) same
        ∙ runs-fill f path t;
    heap = r.heap;
  }

-- From a heap with small children the second loop goes up to a heap with the same runs.
pub ascend-Restored :
    (idx num : ℕ) (path : List Frame) (t : Tree) (k : ℕ)
    → IsHeap t
    → HasSmallKids t k
    → IsHeapAbove path k
    → LeadsTo idx num path
    → Restored idx num path t
unfolding ascend round plug runs
ascend-Restored idx num [] t k h kids above leads = record {
  tree = t;
  ended = refl;
  same_runs = sym (append-nil (runs t));
  heap = h;
}
ascend-Restored idx num (on_left i c r ∷ path) null k h kids (e, s, hr, above) (lt, leads) =
    Restored-ends idx num (on_left i c r) path null (ground arith)
      (plug-IsHeap path (node null i c r) (omega arith, s, tt, hr) above)
ascend-Restored idx num (on_right l i c ∷ path) null k h kids (e, s, hl, above) (lt, leads) =
    Restored-ends idx num (on_right l i c) path null (ground arith)
      (plug-IsHeap path (node l i c null) (s, omega arith, hl, tt) above)
ascend-Restored idx num (on_left i c r ∷ path) (node tl ti tc tr) k (h0, h1, h2, h3) (k0, k1)
      (e, s, hr, above) (lt, leads) =
    elim (Bool-cases (ltb c tc)) [
      | inl greater ↦
          let more : c < tc = ground (arith, greater) in
          let u = node tl ti tc (node tr i c r) in
          Restored-rotated idx num (on_left i c r) path (node tl ti tc tr) u (ground (arith, more))
            (sym (append_assoc (runs tl) ((ti, tc) ∷ runs tr) ((i, c) ∷ runs r)))
            (ascend-Restored idx num path u c
              (h0, omega (arith, more), h2, (omega arith, s, h3, hr)) (omega arith, omega arith)
              above leads)
      | inr fits ↦
          let less : tc ≤ c = ground (arith, fits) in
          Restored-ends idx num (on_left i c r) path (node tl ti tc tr) (ground (arith, less))
            (plug-IsHeap path (node (node tl ti tc tr) i c r) (less, s, (h0, h1, h2, h3), hr) above)
    ]
ascend-Restored idx num (on_right l i c ∷ path) (node tl ti tc tr) k (h0, h1, h2, h3) (k0, k1)
      (e, s, hl, above) (lt, leads) =
    elim (Bool-cases (ltb c tc)) [
      | inl greater ↦
          let more : c < tc = ground (arith, greater) in
          let u = node (node l i c tl) ti tc tr in
          Restored-rotated idx num (on_right l i c) path (node tl ti tc tr) u (ground (arith, more))
            (append_assoc (runs l) ((i, c) ∷ runs tl) ((ti, tc) ∷ runs tr))
            (ascend-Restored idx num path u c
              (omega (arith, more), h1, (s, omega arith, hl, h2), h3) (omega arith, omega arith)
              above leads)
      | inr fits ↦
          let less : tc ≤ c = ground (arith, fits) in
          Restored-ends idx num (on_right l i c) path (node tl ti tc tr) (ground (arith, less))
            (plug-IsHeap path (node l i c (node tl ti tc tr)) (s, less, hl, (h0, h1, h2, h3)) above)
    ]
