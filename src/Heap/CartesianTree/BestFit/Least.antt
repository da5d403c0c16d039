-- ===== src/Heap/CartesianTree/BestFit/Least.antt =====
-- CartesianTree.cj, lines 720-774: what the search finds.
use mathlib.Core.List.{append-nil}
use mathlib.Core.Path.{subst}
use cjcj_runtime.Base.{
  ℕ, ◌+◌, ◌<◌, ◌≤◌, ◌≡◌, ◌≢◌, ◌⊎◌, refl, sym, ap, ◌∙◌, List, [], ◌∷◌, ◌++◌, arith, some, Option,
  Bool-cases, inl, inr, ltb, ◌==◌, All,
}
use cjcj_runtime.Heap.CartesianTree.{Tree, null, node, Side, left, right, runs, Candidate, improve}
use cjcj_runtime.Heap.CartesianTree.Order.{
  All-map, IsHeap, IsAscending, At, All-split, All-At, IsAscending-split,
}
use cjcj_runtime.Heap.CartesianTree.BestFit.{explore}
use cjcj_runtime.Heap.CartesianTree.BestFit.Candidates.{
  IsAtMost, Ready, Found, Best, At-count_of, improve-cases, Found-left, Found-right,
}

module _ (num : ℕ) (s : List Side) (l : Tree) (i c : ℕ) (r : Tree) (b : Option Candidate)
    (fit : num ≤ c) (heap : IsHeap (node l i c r))
    (front : All (λ (x : ℕ × ℕ). x.0 + x.1 < i) (runs l))
    (behind : All (λ (x : ℕ × ℕ). i + c < x.0) (runs r)) where
  abbrev chosen : Candidate
  chosen = improve s i c b

  Found-chosen :
      (chosen ≡ record { slot = s; index = i; count = c }) ⊎ (b ≡ some chosen)
      → (some chosen ≡ b) ⊎ Found num s (node l i c r) (some chosen)
  Found-chosen (inl new) = inr (record {
    path = [];
    index = i;
    count = c;
    same =
        ap some new
        ∙ ap (λ (x : List Side). some (record { slot = x; index = i; count = c }))
            (sym (append-nil s));
    there = (refl, refl);
    enough = fit;
  })
  Found-chosen (inr old) = inl (sym old)

  -- Behind an exact candidate that is not behind the node, nothing on the right is better.
  exact_right :
      (k : Candidate)
      → k.count ≡ num
      → ((c ≡ num) × (k.index ≤ i)) ⊎ All (λ (x : ℕ × ℕ). k.index < x.0) (runs (node l i c r))
      → Ready num (some k) l
        × ((p : List Side) (j d : ℕ) → At r p j d → num ≤ d → IsAtMost (some k) j d)
  unfolding runs
  exact_right k exact (inl (e, le)) = (
    inr (inl (omega (arith, heap.0))),
    λ p j d a h. let after = All-At (λ (x : ℕ × ℕ). i + c < x.0) r p j d behind a in ground arith,
  )
  exact_right k exact (inr all) =
      let (f, (m, g)) = All-split (λ (x : ℕ × ℕ). k.index < x.0) (runs l) ((i, c) ∷ runs r) all in
      (
        inr (inr f),
        λ p j d a h. let after = All-At (λ (x : ℕ × ℕ). k.index < x.0) r p j d g a in ground arith,
      )

  chosen-right :
      Ready num b (node l i c r)
      → chosen.count ≡ num
      → Ready num (some chosen) l
        × ((p : List Side) (j d : ℕ) → At r p j d → num ≤ d → IsAtMost (some chosen) j d)
  chosen-right ready exact =
      let (origin, at_most, keeps) = improve-cases s i c b in
      elim origin [
        | inl new ↦
            exact_right chosen exact (inl (cc (new, exact), omega (arith, ap Candidate.index new)))
        | inr old ↦ elim (subst (λ (x : Option Candidate). Ready num x (node l i c r)) old ready) [
          | inl other ↦ absurd (other exact)
          | inr (inl le) ↦ exact_right chosen exact (inl (omega arith, ground arith))
          | inr (inr all) ↦ exact_right chosen exact (inr all)
        ]
      ]

  -- After the left child was searched, the search is ready for the right one.
  Ready-right :
      (after : Option Candidate)
      → (after ≡ some chosen) ⊎ Found num (s ++ left ∷ []) l after
      → chosen.count ≢ num
      → Ready num after r
  Ready-right after (inl e) more =
      subst (λ (x : Option Candidate). Ready num x r) (sym e) (inl more)
  Ready-right after (inr f) more =
      let before = All-At (λ (x : ℕ × ℕ). x.0 + x.1 < i) l f.path f.index f.count front f.there in
      subst (λ (x : Option Candidate). Ready num x r) (sym f.same)
        (inr (
          inr (
            All-map (λ (x : ℕ × ℕ). i + c < x.0) (λ (x : ℕ × ℕ). f.index < x.0)
              (λ x h. omega (arith, before, h)) (runs r) behind)))

-- What holds of a node and of the nodes below its children holds of all its nodes.
At-cases :
    (after : Option Candidate) (num : ℕ) (l : Tree) (i c : ℕ) (r : Tree)
    → IsAtMost after i c
    → ((p : List Side) (j d : ℕ) → At l p j d → num ≤ d → IsAtMost after j d)
    → ((p : List Side) (j d : ℕ) → At r p j d → num ≤ d → IsAtMost after j d)
    → (p : List Side) (j d : ℕ) → At (node l i c r) p j d
    → num ≤ d
    → IsAtMost after j d
At-cases after num l i c r x f g [] j d (e, h) le =
    subst (λ (y : ℕ). IsAtMost after j y) h (subst (λ (y : ℕ). IsAtMost after y c) e x)
At-cases after num l i c r x f g (left ∷ p) j d a le = f p j d a le
At-cases after num l i c r x f g (right ∷ p) j d a le = g p j d a le

-- A candidate that is kept or found, after one that was kept or found.
chain :
    (num : ℕ) (s : List Side) (t : Tree) (a b c : Option Candidate)
    → (c ≡ b) ⊎ Found num s t c
    → (b ≡ a) ⊎ Found num s t b
    → (c ≡ a) ⊎ Found num s t c
chain num s t a b c (inl e) (inl f) = inl (e ∙ f)
chain num s t a b c (inl e) (inr y) =
    inr (subst (λ (x : Option Candidate). Found num s t x) (sym e) y)
chain num s t a b c (inr x) y = inr x

map-inr : {A B C : Type 0} → (B → C) → A ⊎ B → A ⊎ C
map-inr f (inl a) = inl a
map-inr f (inr b) = inr (f b)

-- The search below a slot returns the old candidate or a node of the tree with enough units, and
-- neither the old candidate nor any such node is better.
pub explore-Best :
    (num : ℕ) (s : List Side) (t : Tree) (b : Option Candidate)
    → IsHeap t
    → IsAscending (runs t)
    → Ready num b t
    → Best num s t b (explore num s t b)
unfolding explore runs
explore-Best num s null b heap asc ready = record {
  source = inl refl;
  below = λ p j d a h. absurd a;
  no_worse = λ j d h. h;
}
explore-Best num s (node l i c r) b heap asc ready =
    let (asc_l, front, behind, asc_r) = IsAscending-split (runs l) (runs r) i c asc in
    let k = improve s i c b in
    let (origin, at_most, keeps) = improve-cases s i c b in
    let low = s ++ left ∷ [] in
    let high = s ++ right ∷ [] in
    elim (Bool-cases (ltb c num)) [
      | inl unfit ↦
          let short : c < num = ground (arith, unfit) in
          let e : explore num s (node l i c r) b ≡ b = ground (arith, unfit) in
          subst (λ (x : Option Candidate). Best num s (node l i c r) b x) (sym e)
            (record {
              source = inl refl;
              below = λ p j d a h.
                  absurd (omega (arith, short, At-count_of (node l i c r) p j d heap a));
              no_worse = λ j d h. h;
            })
      | inr enough ↦
          let fit : num ≤ c = ground (arith, enough) in
          elim (Bool-cases (k.count == num)) [
            | inl exact ↦
                let is_exact : k.count ≡ num = ground (arith, exact) in
                let (ready_l, rest) =
                  chosen-right num s l i c r b fit heap front behind ready is_exact in
                let left_best = explore-Best num low l (some k) heap.2 asc_l ready_l in
                let after = explore num low l (some k) in
                let e : explore num s (node l i c r) b ≡ after = ground (arith, enough, exact) in
                subst (λ (x : Option Candidate). Best num s (node l i c r) b x) (sym e)
                  (record {
                    source =
                        chain num s (node l i c r) b (some k) after
                          (map-inr (Found-left num s l i c r after) left_best.source)
                          (Found-chosen num s l i c r b fit heap front behind origin);
                    below =
                        At-cases (explore num low l (some k)) num l i c r
                          (left_best.no_worse i c at_most) left_best.below
                          (λ p j d a h. left_best.no_worse j d (rest p j d a h));
                    no_worse = λ j d h. left_best.no_worse j d (keeps j d h);
                  })
            | inr more ↦
                let not_exact : k.count ≢ num = ground (arith, more) in
                let left_best = explore-Best num low l (some k) heap.2 asc_l (inl not_exact) in
                let right_best = explore-Best num high r (explore num low l (some k)) heap.3 asc_r (
                  Ready-right num s l i c r b fit heap front behind (explore num low l (some k))
                    left_best.source not_exact) in
                let between = explore num low l (some k) in
                let after = explore num high r between in
                let e : explore num s (node l i c r) b ≡ after = ground (arith, enough, more) in
                subst (λ (x : Option Candidate). Best num s (node l i c r) b x) (sym e)
                  (record {
                    source =
                        chain num s (node l i c r) b between after
                          (map-inr (Found-right num s l i c r after) right_best.source)
                          (chain num s (node l i c r) b (some k) between
                            (map-inr (Found-left num s l i c r between) left_best.source)
                            (Found-chosen num s l i c r b fit heap front behind origin));
                    below =
                        At-cases (explore num high r (explore num low l (some k))) num l i c r
                          (right_best.no_worse i c (left_best.no_worse i c at_most))
                          (λ p j d a h. right_best.no_worse j d (left_best.below p j d a h))
                          right_best.below;
                    no_worse =
                        λ j d h. right_best.no_worse j d (left_best.no_worse j d (keeps j d h));
                  })
          ]
    ]
