-- ===== src/Heap/FreeRegionManager/Covers.antt =====
-- FreeRegionManager.cj: in how many of some runs a unit lies.
use cjcj_runtime.Base.{
  ℕ, ◌+◌, ◌<◌, ◌≤◌, ◌≡◌, ap, ◌∙◌, List, [], ◌∷◌, ◌++◌, arith, inl, inr, All, Bool-cases, ltb, leb,
  ◌&&◌, if◌then◌else◌,
}
use cjcj_runtime.Heap.CartesianTree.{Tree, runs}
use cjcj_runtime.Heap.CartesianTree.Take.{rest_of, Shrunk}
use cjcj_runtime.Heap.CartesianTree.Insert.Added.{
  AreApart, Merged, alone, to_right, to_left, between, Added,
}

-- 1 for a unit of the run, else 0.
abbrev pub holds : ℕ → ℕ → ℕ → ℕ
holds k i c = if leb i k && ltb k (i + c) then 1 else 0

abbrev pub covers : ℕ → List (ℕ × ℕ) → ℕ
covers k [] = 0
covers k ((i, c) ∷ rs) = holds k i c + covers k rs

pub covers-append : (k : ℕ) (a b : List (ℕ × ℕ)) → covers k (a ++ b) ≡ covers k a + covers k b
covers-append k [] b = omega arith
covers-append k ((i, c) ∷ a) b = omega (arith, covers-append k a b)

covers-rest_of :
    (k num i c : ℕ) → num ≤ c → holds k i c ≡ covers k (rest_of num i c) + holds k i num
covers-rest_of k num i c h = ground arith

-- Units that are taken leave the tree.
pub covers-Shrunk :
    (k num : ℕ) (t : Tree) (j d : ℕ) (u : Tree)
    → num ≤ d
    → Shrunk num t j d u
    → covers k (runs t) ≡ covers k (runs u) + holds k j num
covers-Shrunk k num t j d u le s =
    let old = ap (covers k) s.old_runs ∙ covers-append k s.before ((j, d) ∷ s.after) in
    let new = ap (covers k) s.new_runs ∙ covers-append k s.before (rest_of num j d ++ s.after) in
    omega (arith, old, new, covers-append k (rest_of num j d) s.after, covers-rest_of k num j d le)

covers-Merged :
    (k idx num : ℕ) (m : List (ℕ × ℕ)) (i c : ℕ)
    → Merged idx num m i c
    → holds k i c ≡ covers k m + holds k idx num
covers-Merged k idx num m i c alone = omega arith
covers-Merged k idx num m i c (to_right j d e) = ground arith
covers-Merged k idx num m i c (to_left j d e) = ground arith
covers-Merged k idx num m i c (between j d x y e h) = ground arith

-- Units that are given back enter the tree.
pub covers-Added :
    (k idx num : ℕ) (old new : List (ℕ × ℕ))
    → Added idx num old new
    → covers k new ≡ covers k old + holds k idx num
covers-Added k idx num old new a =
    let x = ap (covers k) a.old_runs ∙ covers-append k a.front (a.touched ++ a.back) in
    let y = ap (covers k) a.new_runs ∙ covers-append k a.front ((a.index, a.count) ∷ a.back) in
    omega (
      arith,
      x,
      y,
      covers-append k a.touched a.back,
      covers-Merged k idx num a.touched a.index a.count a.merged,
    )

-- A unit that two runs share.
shared-holds :
    (i c j d : ℕ)
    → 0 < c
    → 0 < d
    → j < i + c
    → i < j + d
    → holds (if leb i j then j else i) i c + holds (if leb i j then j else i) j d ≡ 2
shared-holds i c j d p q h g = ground arith

-- A run of which no unit lies in another run is apart from them.
pub covers-AreApart :
    (idx num : ℕ) (rs : List (ℕ × ℕ))
    → 0 < num
    → All (λ (x : ℕ × ℕ). 0 < x.1) rs
    → ((k : ℕ) → covers k rs + holds k idx num ≤ 1)
    → All (AreApart idx num) rs
covers-AreApart idx num [] p all h = tt
covers-AreApart idx num ((i, c) ∷ rs) p (q, all) h = (
  elim (Bool-cases (leb (i + c) idx)) [
    | inl before ↦ inl (ground (arith, before))
    | inr here ↦ elim (Bool-cases (leb (idx + num) i)) [
      | inl after ↦ inr (ground (arith, after))
      | inr there ↦
          let k = if leb i idx then idx else i in
          let below : idx < i + c = ground (arith, here) in
          let above : i < idx + num = ground (arith, there) in
          absurd (omega (arith, h k, shared-holds i c idx num q p below above))
    ]
  ],
  covers-AreApart idx num rs p all (λ k. omega (arith, h k)),
)
