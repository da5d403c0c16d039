-- ===== src/Heap/CartesianTree/Order.antt =====
-- CartesianTree.cj: the two orders of the tree, ascending runs and counts that do not grow
-- downwards.
use mathlib.Core.Path.{subst}
use cjcj_runtime.Base.{ℕ, ◌+◌, ◌<◌, ◌≤◌, ◌≡◌, ◌∙◌, ap, List, [], ◌∷◌, ◌++◌, All}
use cjcj_runtime.Heap.CartesianTree.{Tree, null, node, Side, left, right, runs, count_of}

abbrev pub IsHeap : Tree → Type 0
IsHeap null = Unit
IsHeap (node l i c r) = (count_of l ≤ c) × (count_of r ≤ c) × IsHeap l × IsHeap r

-- Runs that neither overlap nor touch, in ascending order.
abbrev pub IsAscending : List (ℕ × ℕ) → Type 0
IsAscending [] = Unit
IsAscending ((i, c) ∷ rs) = All (λ (x : ℕ × ℕ). i + c < x.0) rs × IsAscending rs

-- The node at a slot.
abbrev pub At : Tree → List Side → ℕ → ℕ → Type 0
At null s j d = ⊥
At (node l i c r) [] j d = (i ≡ j) × (c ≡ d)
At (node l i c r) (left ∷ s) j d = At l s j d
At (node l i c r) (right ∷ s) j d = At r s j d

module _ (P : ℕ × ℕ → Type 0) where
  pub All-append : (xs ys : List (ℕ × ℕ)) → All P xs → All P ys → All P (xs ++ ys)
  All-append [] ys a b = b
  All-append (x ∷ xs) ys (p, a) b = (p, All-append xs ys a b)

  pub All-split : (xs ys : List (ℕ × ℕ)) → All P (xs ++ ys) → All P xs × All P ys
  All-split [] ys a = (tt, a)
  All-split (x ∷ xs) ys (p, a) = let (b, c) = All-split xs ys a in ((p, b), c)

  -- What holds of all runs holds of a node at a slot.
  pub All-At : (t : Tree) (s : List Side) (j d : ℕ) → All P (runs t) → At t s j d → P (j, d)
  unfolding runs
  All-At null s j d a h = absurd h
  All-At (node l i c r) [] j d a (e, f) =
      let (x, (y, z)) = All-split (runs l) ((i, c) ∷ runs r) a in
      subst P (ap (λ (u : ℕ). (u, c)) e ∙ ap (λ (u : ℕ). (j, u)) f) y
  All-At (node l i c r) (left ∷ s) j d a h =
      let (x, (y, z)) = All-split (runs l) ((i, c) ∷ runs r) a in All-At l s j d x h
  All-At (node l i c r) (right ∷ s) j d a h =
      let (x, (y, z)) = All-split (runs l) ((i, c) ∷ runs r) a in All-At r s j d z h

module _ (P Q : ℕ × ℕ → Type 0) (f : (x : ℕ × ℕ) → P x → Q x) where
  pub All-map : (xs : List (ℕ × ℕ)) → All P xs → All Q xs
  All-map [] a = tt
  All-map (x ∷ xs) (a, b) = (f x a, All-map xs b)

module _ (P Q R : ℕ × ℕ → Type 0) (f : (x : ℕ × ℕ) → P x → Q x → R x) where
  pub All-zip : (xs : List (ℕ × ℕ)) → All P xs → All Q xs → All R xs
  All-zip [] a b = tt
  All-zip (x ∷ xs) (p, a) (q, b) = (f x p q, All-zip xs a b)

-- What ascending runs say of the runs around one of them.
pub IsAscending-split :
    (xs ys : List (ℕ × ℕ)) (i c : ℕ)
    → IsAscending (xs ++ (i, c) ∷ ys)
    → IsAscending xs
      × All (λ (x : ℕ × ℕ). x.0 + x.1 < i) xs
      × All (λ (x : ℕ × ℕ). i + c < x.0) ys
      × IsAscending ys
IsAscending-split [] ys i c (a, b) = (tt, tt, a, b)
IsAscending-split ((j, d) ∷ xs) ys i c (a, b) =
    let (p, q, r, s) = IsAscending-split xs ys i c b in
    let (e, f) = All-split _ xs ((i, c) ∷ ys) a in ((e, p), (f.0, q), r, s)
