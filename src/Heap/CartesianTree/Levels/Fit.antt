-- ===== src/Heap/CartesianTree/Levels/Fit.antt =====
-- CartesianTree.cj, lines 312-321 and 685-717: TakeUnits.
use mathlib.Core.Path.{subst}
use cjcj_runtime.Base.{
  ℕ, zero, suc, ◌+◌, ◌<◌, ◌≤◌, ◌≡◌, ◌⊎◌, refl, sym, ap, ◌∙◌, List, [], ◌∷◌, ◌++◌, arith, All, some,
  Bool-cases, inl, inr, false, ltb, ◌==◌,
}
use cjcj_runtime.Heap.CartesianTree.{
  Tree, null, node, Side, left, right, runs, size, count_of, Candidate, CartesianTree, refused,
  take_at,
}
use cjcj_runtime.Heap.CartesianTree.Order.{IsHeap, At, All-append}
use cjcj_runtime.Heap.CartesianTree.Take.{IsFree}
use cjcj_runtime.Heap.CartesianTree.Take.Cut.{Cut, take_at-Cut}
use cjcj_runtime.Heap.CartesianTree.Levels.{
  Queued, enqueue, children, candidate_of, last_fit, root_queued, take_units_impl, take_units,
}

-- The tree that hangs in a slot.
abbrev hangs : Tree → List Side → Tree
hangs t [] = t
hangs null (s ∷ ss) = null
hangs (node l i c r) (left ∷ ss) = hangs l ss
hangs (node l i c r) (right ∷ ss) = hangs r ss

hangs-append : (t : Tree) (a b : List Side) → hangs t (a ++ b) ≡ hangs (hangs t a) b
hangs-append t [] b = refl
hangs-append null (s ∷ a) [] = refl
hangs-append null (s ∷ a) (x ∷ b) = refl
hangs-append (node l i c r) (left ∷ a) b = hangs-append l a b
hangs-append (node l i c r) (right ∷ a) b = hangs-append r a b

-- The node at a slot, by itself.
abbrev IsAt : Tree → ℕ → ℕ → Type 0
IsAt null j d = ⊥
IsAt (node l i c r) j d = (i ≡ j) × (c ≡ d)

hangs-At : (t : Tree) (s : List Side) (j d : ℕ) → IsAt (hangs t s) j d → At t s j d
hangs-At null [] j d h = h
hangs-At null (x ∷ s) j d h = h
hangs-At (node l i c r) [] j d h = h
hangs-At (node l i c r) (left ∷ s) j d h = hangs-At l s j d h
hangs-At (node l i c r) (right ∷ s) j d h = hangs-At r s j d h

abbrev node_of : Queued → Tree
node_of e = node e.left_child e.index e.count e.right_child

module _ (root : Tree) where
  -- What stands in the queue hangs in the tree.
  abbrev Hangs : Queued → Type 0
  Hangs e = hangs root e.slot ≡ node_of e

  All-last :
      (e : Queued) (queue : List Queued) → All Hangs queue → Hangs e → All Hangs (queue ++ e ∷ [])
  All-last e [] a h = (h, tt)
  All-last e (x ∷ queue) (p, a) h = (p, All-last e queue a h)

  enqueue-Hangs :
      (s : List Side) (t : Tree) (queue : List Queued)
      → hangs root s ≡ t
      → All Hangs queue
      → All Hangs (enqueue s t queue)
  unfolding enqueue
  enqueue-Hangs s null queue h a = a
  enqueue-Hangs s (node l i c r) queue h a =
      All-last (record { slot = s; left_child = l; index = i; count = c; right_child = r }) queue a
        h

  children-Hangs :
      (e : Queued) (queue : List Queued) → Hangs e → All Hangs queue → All Hangs (children e queue)
  unfolding children
  children-Hangs e queue h a =
      enqueue-Hangs (e.slot ++ left ∷ []) e.left_child
        (enqueue (e.slot ++ right ∷ []) e.right_child queue)
        (hangs-append root e.slot (left ∷ []) ∙ ap (λ (t : Tree). hangs t (left ∷ [])) h)
        (enqueue-Hangs (e.slot ++ right ∷ []) e.right_child queue
          (hangs-append root e.slot (right ∷ []) ∙ ap (λ (t : Tree). hangs t (right ∷ [])) h) a)

abbrev pub weight : List Queued → ℕ
weight [] = 0
weight (e ∷ queue) = suc (size e.left_child + size e.right_child) + weight queue

weight-last :
    (e : Queued) (queue : List Queued)
    → weight (queue ++ e ∷ []) ≡ weight queue + suc (size e.left_child + size e.right_child)
weight-last e [] = omega arith
weight-last e (x ∷ queue) = omega (arith, weight-last e queue)

pub weight-enqueue :
    (s : List Side) (t : Tree) (queue : List Queued)
    → weight (enqueue s t queue) ≡ weight queue + size t
unfolding enqueue size
weight-enqueue s null queue = omega arith
weight-enqueue s (node l i c r) queue =
    weight-last (record { slot = s; left_child = l; index = i; count = c; right_child = r }) queue

pub weight-children :
    (e : Queued) (queue : List Queued)
    → weight (children e queue) ≡ weight queue + size e.left_child + size e.right_child
unfolding children
weight-children e queue = omega (
  arith,
  weight-enqueue (e.slot ++ left ∷ []) e.left_child
      (enqueue (e.slot ++ right ∷ []) e.right_child queue),
  weight-enqueue (e.slot ++ right ∷ []) e.right_child queue,
)

module _ (num : ℕ) (root : Tree) where
  -- The loop ends at a slot whose node has enough units.
  last_fit-At :
      (n : ℕ) (b : Candidate) (queue : List Queued)
      → weight queue < n
      → All (Hangs root) queue
      → At root b.slot b.index b.count
      → num ≤ b.count
      → (d : Candidate) × (last_fit n num b queue ≡ some d)
        × At root d.slot d.index d.count
        × (num ≤ d.count)
  unfolding last_fit
  last_fit-At zero b queue fuel a there enough = absurd (omega arith)
  last_fit-At (suc n) b [] fuel a there enough = (b, refl, there, enough)
  last_fit-At (suc n) b (e ∷ queue) fuel (h, a) there enough = elim (Bool-cases (ltb e.count num)) [
    | inl short ↦ (b, ground (arith, short), there, enough)
    | inr fits ↦
        let at_e : IsAt (hangs root e.slot) e.index e.count =
          subst (λ (t : Tree). IsAt t e.index e.count) (sym h) (refl, refl) in
        let (d, f, x, y) =
          last_fit-At n (candidate_of e) (children e queue)
            (omega (arith, weight-children e queue, fuel)) (children-Hangs root e queue h a)
            (hangs-At root e.slot e.index e.count at_e) (ground (arith, fits)) in
        (d, ground (arith, fits, f), x, y)
  ]

-- No run of a heap is greater than the root.
pub heap-bound :
    (k : ℕ) (t : Tree) → IsHeap t → count_of t < k → All (λ (x : ℕ × ℕ). x.1 < k) (runs t)
unfolding runs
heap-bound k null h b = tt
heap-bound k (node l i c r) (x, y, hl, hr) b =
    All-append (λ (z : ℕ × ℕ). z.1 < k) (runs l) ((i, c) ∷ runs r)
      (heap-bound k l hl (omega (arith, x, b))) (b, heap-bound k r hr (omega (arith, y, b)))

take_units-root :
    (num total : ℕ) (root : Tree)
    → 0 < num
    → IsFree (record { total_count = total; root = root })
    → ((i c : ℕ) × (num ≤ c)
        × Cut num
            (record { total_count = total; root = root })
            i
            c
            (take_units num (record { total_count = total; root = root })))
      ⊎ ((take_units num (record { total_count = total; root = root }) ≡ refused)
          × All (λ (x : ℕ × ℕ). x.1 < num) (runs root))
unfolding take_units take_units_impl runs size
take_units-root num total null positive free =
    let asked : (num == 0) ≡ false = ground arith in inr (ground (arith, asked), tt)
take_units-root num total (node l i c r) positive free =
    let asked : (num == 0) ≡ false = ground arith in
    let t : CartesianTree = record { total_count = total; root = node l i c r } in
    let e = root_queued l i c r in
    elim (Bool-cases (ltb c num)) [
      | inl short ↦ inr (
        ground (arith, asked, short),
        heap-bound num (node l i c r) free.heap (ground (arith, short)),
      )
      | inr fits ↦
          let (b, f, there, enough) =
            last_fit-At num (node l i c r) (suc (suc (size l + size r))) (candidate_of e)
              (children e []) (omega (arith, weight-children e []))
              (children-Hangs (node l i c r) e [] refl tt) (refl, refl) (ground (arith, fits)) in
          let found : take_units num t ≡ take_at num t b = ground (arith, asked, fits, f) in
          inl (
            b.index,
            b.count,
            enough,
            subst (Cut num t b.index b.count) (sym found) (take_at-Cut num t b free enough there),
          )
    ]

-- On a tree that satisfies the invariant `TakeUnits` of at least one unit ends and never fails. Either it takes the first
-- units of a run that has enough, keeps the other runs, the heap and the invariant, and lowers the
-- total by `num`; or it refuses, and then every run is too short.
pub take_units-Cut :
    (num : ℕ) (t : CartesianTree)
    → 0 < num
    → IsFree t
    → ((i c : ℕ) × (num ≤ c) × Cut num t i c (take_units num t))
      ⊎ ((take_units num t ≡ refused) × All (λ (x : ℕ × ℕ). x.1 < num) (runs t.root))
take_units-Cut num t positive free = take_units-root num t.total_count t.root positive free
