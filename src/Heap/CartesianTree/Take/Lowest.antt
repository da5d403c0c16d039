-- ===== src/Heap/CartesianTree/Take/Lowest.antt =====
-- CartesianTree.cj, lines 324-333 and 777-799: TakeUnitsLowAddr.
use mathlib.Core.Path.{subst}
use cjcj_runtime.Base.{
  ℕ, ◌+◌, ◌<◌, ◌≤◌, ◌≡◌, ◌⊎◌, sym, List, [], arith, some, none, Option, Bool-cases, inl, inr, false,
  ◌==◌, All, leb,
}
use cjcj_runtime.Heap.CartesianTree.{
  Side, Candidate, runs, CartesianTree, Taken, taken, refused, take_at, take_units_low_addr,
}
use cjcj_runtime.Heap.CartesianTree.Order.{At}
use cjcj_runtime.Heap.CartesianTree.BestFit.{find_best_fit_low_addr-explore}
use cjcj_runtime.Heap.CartesianTree.BestFit.Candidates.{IsAtMost}
use cjcj_runtime.Heap.CartesianTree.BestFit.Least.{explore-Best}
use cjcj_runtime.Heap.CartesianTree.Take.{IsFree, Shrunk}
use cjcj_runtime.Heap.CartesianTree.Take.Runs.{All-runs}
use cjcj_runtime.Heap.CartesianTree.Take.Cut.{take_at-Cut}

-- The first `num` units of the run at `index` are taken: of the runs with enough units it has the
-- least count, and of those with that count the lowest index. The other runs stay as they are.
pub record BestFit (num : ℕ) (t : CartesianTree) (result : Taken) : Type 0 where
  pub index : ℕ
  pub count : ℕ
  pub after : CartesianTree
  pub returned : result ≡ taken index after
  pub enough : num ≤ count
  pub least :
      All
        (λ (x : ℕ × ℕ). (x.1 < num) ⊎ ((count < x.1) ⊎ ((count ≡ x.1) × (index ≤ x.0))))
        (runs t.root)
  pub change : Shrunk num t.root index count after.root
  pub total : after.total_count + num ≡ t.total_count
  pub free : IsFree after

module _ (num : ℕ) (t : CartesianTree) (positive : 0 < num) (free : IsFree t) where
  -- A run with fewer units than are asked for, or one that the candidate is at most.
  no_better :
      (b : Candidate)
      → ((p : List Side) (j d : ℕ) → At t.root p j d → num ≤ d → IsAtMost (some b) j d)
      → All
          (λ (x : ℕ × ℕ). (x.1 < num) ⊎ ((b.count < x.1) ⊎ ((b.count ≡ x.1) × (b.index ≤ x.0))))
          (runs t.root)
  no_better b least =
      All-runs
        (λ (x : ℕ × ℕ). (x.1 < num) ⊎ ((b.count < x.1) ⊎ ((b.count ≡ x.1) × (b.index ≤ x.0))))
        t.root
        (λ p j d a. elim (Bool-cases (leb num d)) [
          | inl fits ↦ inr (least p j d a (ground (arith, fits)))
          | inr short ↦ inl (ground (arith, short))
        ])

  take_at-BestFit :
      (b : Candidate)
      → num ≤ b.count
      → At t.root b.slot b.index b.count
      → ((p : List Side) (j d : ℕ) → At t.root p j d → num ≤ d → IsAtMost (some b) j d)
      → BestFit num t (take_at num t b)
  take_at-BestFit b enough there least =
      let cut = take_at-Cut num t b free enough there in
      record {
        index = b.index;
        count = b.count;
        after = cut.after;
        returned = cut.returned;
        enough = enough;
        least = no_better b least;
        change = cut.change;
        total = cut.total;
        free = cut.free;
      }

  -- In a tree that satisfies the invariant the allocation of at least one unit ends and never fails.
  -- Either it takes the
  -- first units of the run that fits best, the least count that is enough and of these the lowest
  -- index: the run is shortened or gone, the other runs stay, the invariant holds again, and the
  -- total is less by `num`. Or it refuses, and then every run is too short.
  pub take_units_low_addr-BestFit :
      BestFit num t (take_units_low_addr num t)
      ⊎ ((take_units_low_addr num t ≡ refused) × All (λ (x : ℕ × ℕ). x.1 < num) (runs t.root))
  unfolding take_units_low_addr
  take_units_low_addr-BestFit =
      let best = explore-Best num [] t.root none free.heap free.ascending tt in
      let searched = find_best_fit_low_addr-explore num positive t.root in
      let asked : (num == 0) ≡ false = ground arith in
      elim best.source [
        | inl nothing ↦ inr (
          ground (arith, asked, searched, nothing),
          All-runs (λ (x : ℕ × ℕ). x.1 < num) t.root
              (λ p j d a. elim (Bool-cases (leb num d)) [
                | inl fits ↦ absurd (
                    subst (λ (x : Option Candidate). IsAtMost x j d) nothing
                      (best.below p j d a (ground (arith, fits))))
                | inr short ↦ ground (arith, short)
              ]),
        )
        | inr found ↦
            let b : Candidate = record {
              slot = found.path;
              index = found.index;
              count = found.count;
            } in
            let e : take_units_low_addr num t ≡ take_at num t b =
              ground (arith, asked, searched, found.same) in
            inl (
              subst (BestFit num t) (sym e) (
                take_at-BestFit b found.enough found.there (λ p j d a h.
                  subst (λ (x : Option Candidate). IsAtMost x j d) found.same
                    (best.below p j d a h))))
      ]
