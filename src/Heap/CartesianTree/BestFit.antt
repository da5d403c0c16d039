-- ===== src/Heap/CartesianTree/BestFit.antt =====
-- CartesianTree.cj, lines 720-774: the loop of FindBestFitLowAddrPtr, as a recursion on the tree.
pub mod Candidates
pub mod Least
use cjcj_runtime.Base.{
  ℕ, zero, suc, ◌+◌, ◌<◌, ◌≤◌, ◌≡◌, refl, ◌∙◌, List, [], ◌∷◌, ◌++◌, arith, some, none, Option,
  Bool-cases, inl, inr, true, false, leb, ltb, ◌==◌,
}
use cjcj_runtime.Heap.CartesianTree.{
  Tree, null, node, Side, left, right, size, count_of, Candidate, improve, push, find_loop,
  find_best_fit_low_addr,
}

-- The search below the slot `s`, the left child first.
unfoldable pub explore : ℕ → List Side → Tree → Option Candidate → Option Candidate
explore num s null best = best
explore num s (node l i c r) best = elim (ltb c num) [
  | true ↦ best
  | false ↦
      let b = improve s i c best in
      let after = explore num (s ++ left ∷ []) l (some b) in
      elim (b.count == num) [ true ↦ after | false ↦ explore num (s ++ right ∷ []) r after ]
]

abbrev explores : ℕ → List (List Side × Tree) → Option Candidate → Option Candidate
explores num [] best = best
explores num ((s, t) ∷ stack) best = explores num stack (explore num s t best)

abbrev weight : List (List Side × Tree) → ℕ
weight [] = 0
weight ((s, t) ∷ stack) = size t + weight stack

-- Every tree on the stack has enough units at its root.
abbrev AreFit : ℕ → List (List Side × Tree) → Type 0
AreFit num [] = Unit
AreFit num ((s, t) ∷ stack) = (num ≤ count_of t) × AreFit num stack

module _ (num : ℕ) (positive : 0 < num) where
  explore-unfit :
      (s : List Side) (t : Tree) (best : Option Candidate)
      → count_of t < num
      → explore num s t best ≡ best
  unfolding explore
  explore-unfit s null best h = refl
  explore-unfit s (node l i c r) best h = ground arith

  push-AreFit :
      (s : List Side) (t : Tree) (stack : List (List Side × Tree))
      → AreFit num stack
      → AreFit num (push num s t stack)
  unfolding push
  push-AreFit s t stack h = elim (Bool-cases (leb num (count_of t))) [
    | inl fit ↦ rw fit ((ground arith), h)
    | inr unfit ↦ rw unfit h
  ]

  weight-push :
      (s : List Side) (t : Tree) (stack : List (List Side × Tree))
      → weight (push num s t stack) ≤ size t + weight stack
  unfolding push
  weight-push s t stack = elim (Bool-cases (leb num (count_of t))) [
    | inl fit ↦ rw fit (omega arith)
    | inr unfit ↦ rw unfit (omega arith)
  ]

  explores-push :
      (s : List Side) (t : Tree) (stack : List (List Side × Tree)) (best : Option Candidate)
      → explores num (push num s t stack) best ≡ explores num stack (explore num s t best)
  unfolding push
  explores-push s t stack best = elim (Bool-cases (leb num (count_of t))) [
    | inl fit ↦ rw fit refl
    | inr unfit ↦ rw (unfit, explore-unfit s t best (ground arith)) refl
  ]

  find_loop-explores :
      (n : ℕ) (stack : List (List Side × Tree)) (best : Option Candidate)
      → AreFit num stack
      → weight stack < n
      → find_loop n num stack best ≡ some (explores num stack best)
  unfolding find_loop size explore
  find_loop-explores zero stack best fit fuel = absurd (omega arith)
  find_loop-explores (suc n) [] best fit fuel = refl
  find_loop-explores (suc n) ((s, null) ∷ stack) best fit fuel = absurd (omega arith)
  find_loop-explores (suc n) ((s, node l i c r) ∷ stack) best (fit, rest) fuel =
      let b = improve s i c best in
      let low = s ++ left ∷ [] in
      let high = s ++ right ∷ [] in
      let enough : ltb c num ≡ false = ground arith in
      elim (Bool-cases (b.count == num)) [
        | inl exact ↦
            let st = push num low l stack in
            let ih =
              find_loop-explores n st (some b) (push-AreFit low l stack rest)
                (omega (arith, weight-push low l stack, fuel)) in
            ground (arith, enough, exact, ih, explores-push low l stack (some b))
        | inr more ↦
            let st = push num high r stack in
            let ih =
              find_loop-explores n (push num low l st) (some b)
                (push-AreFit low l st (push-AreFit high r stack rest))
                (omega (arith, weight-push low l st, weight-push high r stack, fuel)) in
            ground (
              arith,
              enough,
              more,
              ih,
              explores-push low l st (some b),
              explores-push high r stack (explore num low l (some b)),
            )
      ]

  -- The search ends, and is that recursion.
  pub find_best_fit_low_addr-explore :
      (t : Tree) → find_best_fit_low_addr num t ≡ some (explore num [] t none)
  unfolding find_best_fit_low_addr
  find_best_fit_low_addr-explore t =
      find_loop-explores (suc (size t)) (push num [] t []) none (push-AreFit [] t [] tt)
        (omega (arith, weight-push [] t []))
      ∙ rw (explores-push [] t [] none) refl
