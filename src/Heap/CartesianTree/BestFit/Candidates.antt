-- ===== src/Heap/CartesianTree/BestFit/Candidates.antt =====
-- CartesianTree.cj, lines 741-750: candidates of the search, and the comparison with a node.
use mathlib.Core.List.{append_assoc}
use cjcj_runtime.Base.{
  ℕ, ◌<◌, ◌≤◌, ◌≡◌, ◌≢◌, ◌⊎◌, refl, ap, ◌∙◌, List, [], ◌∷◌, ◌++◌, arith, some, none, Option,
  Bool-cases, inl, inr, ltb, ◌==◌, All, ◌&&◌, ◌||◌,
}
use cjcj_runtime.Heap.CartesianTree.{
  Tree, null, node, Side, left, right, runs, count_of, Candidate, improve,
}
use cjcj_runtime.Heap.CartesianTree.Order.{IsHeap, At}

-- A candidate that a run does not improve.
abbrev pub IsAtMost : Option Candidate → ℕ → ℕ → Type 0
IsAtMost none j d = ⊥
IsAtMost (some b) j d = (b.count < d) ⊎ ((b.count ≡ d) × (b.index ≤ j))

-- A candidate of exactly `num` units is found before the tree: above it or in front of it.
abbrev pub Ready : ℕ → Option Candidate → Tree → Type 0
Ready num none t = Unit
Ready num (some b) t =
    (b.count ≢ num) ⊎ ((count_of t ≤ num) ⊎ All (λ (x : ℕ × ℕ). b.index < x.0) (runs t))

-- The candidate is the node at a slot below `s`.
pub record Found (num : ℕ) (s : List Side) (t : Tree) (b : Option Candidate) : Type 0 where
  pub path : List Side
  pub index : ℕ
  pub count : ℕ
  pub same : b ≡ some (record { slot = s ++ path; index = index; count = count })
  pub there : At t path index count
  pub enough : num ≤ count

pub record Best (num : ℕ) (s : List Side) (t : Tree) (b after : Option Candidate) : Type 0 where
  pub source : (after ≡ b) ⊎ Found num s t after
  pub below : (p : List Side) (j d : ℕ) → At t p j d → num ≤ d → IsAtMost after j d
  pub no_worse : (j d : ℕ) → IsAtMost b j d → IsAtMost after j d

-- No node has more units than the root of its tree.
pub At-count_of : (t : Tree) (p : List Side) (j d : ℕ) → IsHeap t → At t p j d → d ≤ count_of t
At-count_of null p j d h a = absurd a
At-count_of (node l i c r) [] j d h a = omega (arith, a.1)
At-count_of (node l i c r) (left ∷ p) j d h a = omega (arith, At-count_of l p j d h.2 a, h.0)
At-count_of (node l i c r) (right ∷ p) j d h a = omega (arith, At-count_of r p j d h.3 a, h.1)

-- Comparing with a node: the node or the old candidate is taken, whichever is at most the other.
pub improve-cases :
    (s : List Side) (i c : ℕ) (b : Option Candidate)
    → ((improve s i c b ≡ record { slot = s; index = i; count = c }) ⊎ (b ≡ some (improve s i c b)))
      × IsAtMost (some (improve s i c b)) i c
      × ((j d : ℕ) → IsAtMost b j d → IsAtMost (some (improve s i c b)) j d)
unfolding improve
improve-cases s i c none = (inl refl, inr (refl, omega arith), λ j d h. absurd h)
improve-cases s i c (some b) =
    elim (Bool-cases (ltb c b.count || (c == b.count && ltb i b.index))) [
      | inl better ↦ rw better (inl refl, inr (refl, omega arith), λ j d h. ground arith)
      | inr worse ↦ rw worse (inr refl, ground arith, λ j d h. h)
    ]

-- A candidate below a child is one below the node.
pub Found-left :
    (num : ℕ) (s : List Side) (l : Tree) (i c : ℕ) (r : Tree) (b : Option Candidate)
    → Found num (s ++ left ∷ []) l b
    → Found num s (node l i c r) b
Found-left num s l i c r b f = record {
  path = left ∷ f.path;
  index = f.index;
  count = f.count;
  same =
      f.same
      ∙ ap (λ (x : List Side). some (record { slot = x; index = f.index; count = f.count }))
          (append_assoc s (left ∷ []) f.path);
  there = f.there;
  enough = f.enough;
}

pub Found-right :
    (num : ℕ) (s : List Side) (l : Tree) (i c : ℕ) (r : Tree) (b : Option Candidate)
    → Found num (s ++ right ∷ []) r b
    → Found num s (node l i c r) b
Found-right num s l i c r b f = record {
  path = right ∷ f.path;
  index = f.index;
  count = f.count;
  same =
      f.same
      ∙ ap (λ (x : List Side). some (record { slot = x; index = f.index; count = f.count }))
          (append_assoc s (right ∷ []) f.path);
  there = f.there;
  enough = f.enough;
}
