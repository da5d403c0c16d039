-- ===== src/Heap/CartesianTree/Take/Runs.antt =====
-- CartesianTree.cj, lines 788-797: lists of runs of which one is shortened.
use mathlib.Core.Path.{subst}
use cjcj_runtime.Base.{
  ℕ, ◌+◌, ◌-◌, ◌^◌, ◌<◌, ◌≤◌, ◌≡◌, refl, sym, ap, ◌∙◌, List, [], ◌∷◌, ◌++◌, arith, Bool-cases, inl,
  inr, ◌==◌, All,
}
use cjcj_runtime.Heap.CartesianTree.{Tree, null, node, Side, left, right, runs, CartesianTree}
use cjcj_runtime.Heap.CartesianTree.Order.{IsAscending, At, All-append, All-split}
use cjcj_runtime.Heap.CartesianTree.Take.{units, IsFree, rest_of, Shrunk}

module _ (P : ℕ × ℕ → Type 0) where
  -- A predicate on all runs that what is left of the run inherits from it.
  pub All-rest_of :
      (num i c : ℕ) (before after : List (ℕ × ℕ))
      → (P (i, c) → 0 < c - num → P (i + num, c - num))
      → All P (before ++ (i, c) ∷ after)
      → All P (before ++ (rest_of num i c ++ after))
  All-rest_of num i c before after f a =
      let (b, (m, d)) = All-split P before ((i, c) ∷ after) a in
      elim (Bool-cases (c - num == 0)) [
        | inl empty ↦ rw empty (All-append P before after b d)
        | inr more ↦
            rw more
              (All-append P before ((i + num, c - num) ∷ after) b ((f m (ground (arith, more))), d))
      ]

  -- A predicate on the node at every slot is one on all runs.
  pub All-runs : (t : Tree) → ((p : List Side) (j d : ℕ) → At t p j d → P (j, d)) → All P (runs t)
  unfolding runs
  All-runs null f = tt
  All-runs (node l i c r) f =
      All-append P (runs l) ((i, c) ∷ runs r) (All-runs l (λ p j d a. f (left ∷ p) j d a))
        ((f [] i c (refl, refl)), All-runs r (λ p j d a. f (right ∷ p) j d a))

IsAscending-rest_of :
    (num i c : ℕ) (before after : List (ℕ × ℕ))
    → num ≤ c
    → IsAscending (before ++ (i, c) ∷ after)
    → IsAscending (before ++ (rest_of num i c ++ after))
IsAscending-rest_of num i c [] after le (a, b) = elim (Bool-cases (c - num == 0)) [
  | inl empty ↦ rw empty b
  | inr more ↦ let same : i + num + (c - num) ≡ i + c = omega arith in rw (more, same) (a, b)
]
IsAscending-rest_of num i c ((j, d) ∷ before) after le (a, b) = (
  All-rest_of (λ (x : ℕ × ℕ). j + d < x.0) num i c before after (λ h k. omega arith) a,
  IsAscending-rest_of num i c before after le b,
)

pub units-append : (a b : List (ℕ × ℕ)) → units (a ++ b) ≡ units a + units b
units-append [] b = omega arith
units-append ((i, c) ∷ a) b = omega (arith, units-append a b)

units-rest_of : (num i c : ℕ) → units (rest_of num i c) ≡ c - num
units-rest_of num i c = ground arith

-- After `num` units are taken from a run the tree is free again, with the total less them.
pub Shrunk-IsFree :
    (num : ℕ) (t : CartesianTree) (j d : ℕ) (u : Tree)
    → num ≤ d
    → IsFree t
    → Shrunk num t.root j d u
    → (num ≤ t.total_count) × IsFree (record { total_count = t.total_count - num; root = u })
Shrunk-IsFree num t j d u le f s =
    let old_total : units (runs t.root) ≡ units s.before + (d + units s.after) =
      ap units s.old_runs ∙ units-append s.before ((j, d) ∷ s.after) in
    let new_total : units (runs u) ≡ units s.before + (d - num + units s.after) =
      ap units s.new_runs
      ∙ units-append s.before (rest_of num j d ++ s.after)
      ∙ ap (◌+◌ (units s.before)) (
          units-append (rest_of num j d) s.after
          ∙ ap (λ (x : ℕ). x + units s.after) (units-rest_of num j d)) in
    let total = f.total in
    (
      omega (arith, total, old_total),
      record {
        heap = s.heap;
        ascending = subst IsAscending (sym s.new_runs) (
            IsAscending-rest_of num j d s.before s.after le
              (subst IsAscending s.old_runs f.ascending));
        in_range = subst (All (λ (x : ℕ × ℕ). x.0 + x.1 < 2 ^ 32)) (sym s.new_runs) (
            All-rest_of (λ (x : ℕ × ℕ). x.0 + x.1 < 2 ^ 32) num j d s.before s.after
              (λ h k. omega (arith, h, le))
              (subst (All (λ (x : ℕ × ℕ). x.0 + x.1 < 2 ^ 32)) s.old_runs f.in_range));
        positive = subst (All (λ (x : ℕ × ℕ). 0 < x.1)) (sym s.new_runs) (
            All-rest_of (λ (x : ℕ × ℕ). 0 < x.1) num j d s.before s.after (λ h k. k)
              (subst (All (λ (x : ℕ × ℕ). 0 < x.1)) s.old_runs f.positive));
        total = omega (arith, total, old_total, new_total, le);
      },
    )
