-- ===== src/Heap/CartesianTree/Insert/Added.antt =====
-- CartesianTree.cj, lines 293-532: a run that is added to ascending runs, merged with those that it
-- touches.
use mathlib.Core.Path.{subst}
use cjcj_runtime.Base.{ℕ, ◌+◌, ◌<◌, ◌≤◌, ◌≡◌, ◌⊎◌, sym, ap, ◌∙◌, List, [], ◌∷◌, ◌++◌, arith, All}
use cjcj_runtime.Heap.CartesianTree.Order.{
  IsAscending, IsAscending-split, All-split, All-append, All-map,
}
use cjcj_runtime.Heap.CartesianTree.Take.{units}
use cjcj_runtime.Heap.CartesianTree.Take.Runs.{units-append}

-- Neither of the two runs goes on into the other.
abbrev pub AreApart : ℕ → ℕ → ℕ × ℕ → Type 0
AreApart idx num x = (x.0 + x.1 ≤ idx) ⊎ (idx + num ≤ x.0)

-- The runs that the new one touches, and the run that they become with it.
pub data Merged (idx num : ℕ) : List (ℕ × ℕ) → ℕ → ℕ → Type 0 where
  alone : Merged idx num [] idx num
  to_right : (i c : ℕ) → i + c ≡ idx → Merged idx num ((i, c) ∷ []) i (c + num)
  to_left : (i c : ℕ) → idx + num ≡ i → Merged idx num ((i, c) ∷ []) idx (c + num)
  between :
      (i c j d : ℕ)
      → i + c ≡ idx
      → idx + num ≡ j
      → Merged idx num ((i, c) ∷ (j, d) ∷ []) i (c + num + d)

-- `new` is `old` with the run, and no other run of `old` overlaps or touches it.
pub record Added (idx num : ℕ) (old new : List (ℕ × ℕ)) : Type 0 where
  pub front : List (ℕ × ℕ)
  pub back : List (ℕ × ℕ)
  pub touched : List (ℕ × ℕ)
  pub index : ℕ
  pub count : ℕ
  pub old_runs : old ≡ front ++ (touched ++ back)
  pub new_runs : new ≡ front ++ (index, count) ∷ back
  pub merged : Merged idx num touched index count
  pub below : All (λ (x : ℕ × ℕ). x.0 + x.1 < idx) front
  pub above : All (λ (x : ℕ × ℕ). idx + num < x.0) back

-- What holds of the runs that are merged holds of the merged run.
Merged-lem :
    (idx num : ℕ) (m : List (ℕ × ℕ)) (i c : ℕ) (P : ℕ × ℕ → Type 0)
    → Merged idx num m i c
    → P (idx, num)
    → ((x y : ℕ × ℕ) → x.0 + x.1 ≡ y.0 → P x → P y → P (x.0, x.1 + y.1))
    → All P m
    → P (i, c)
Merged-lem idx num m i c P alone p f all = p
Merged-lem idx num m i c P (to_right j d e) p f all = f (j, d) (idx, num) e all.0 p
Merged-lem idx num m i c P (to_left j d e) p f all =
    subst (λ (x : ℕ). P (idx, x)) (omega arith) (f (idx, num) (j, d) e p all.0)
Merged-lem idx num m i c P (between j d k e h g) p f all =
    f (j, d + num) (k, e) (omega (arith, h, g)) (f (j, d) (idx, num) h all.0 p) all.1.0

pub IsAscending-parts : (a b : List (ℕ × ℕ)) → IsAscending (a ++ b) → IsAscending a × IsAscending b
IsAscending-parts [] b h = (tt, h)
IsAscending-parts ((i, c) ∷ a) b (all, h) =
    let (x, y) = IsAscending-parts a b h in
    let (f, g) = All-split (λ (z : ℕ × ℕ). i + c < z.0) a b all in ((f, x), y)

pub IsAscending-join :
    (a b : List (ℕ × ℕ)) (i c : ℕ)
    → IsAscending a
    → All (λ (x : ℕ × ℕ). x.0 + x.1 < i) a
    → All (λ (x : ℕ × ℕ). i + c < x.0) b
    → IsAscending b
    → IsAscending (a ++ (i, c) ∷ b)
IsAscending-join [] b i c x f g y = (g, y)
IsAscending-join ((j, d) ∷ a) b i c (all, x) (lt, f) g y = (
  All-append (λ (z : ℕ × ℕ). j + d < z.0) a ((i, c) ∷ b) all
      (
        lt,
        All-map (λ (z : ℕ × ℕ). i + c < z.0) (λ (z : ℕ × ℕ). j + d < z.0)
            (λ z h. omega (arith, h, lt)) b g,
      ),
  IsAscending-join a b i c x f g y,
)

-- The merged run lies apart from those in front of it and behind it.
Merged-IsAscending :
    (idx num : ℕ) (front back m : List (ℕ × ℕ)) (i c : ℕ)
    → Merged idx num m i c
    → All (λ (x : ℕ × ℕ). x.0 + x.1 < idx) front
    → All (λ (x : ℕ × ℕ). idx + num < x.0) back
    → IsAscending (front ++ (m ++ back))
    → IsAscending (front ++ (i, c) ∷ back)
Merged-IsAscending idx num front back m i c alone below above asc =
    let (x, y) = IsAscending-parts front back asc in
    IsAscending-join front back idx num x below above y
Merged-IsAscending idx num front back m i c (to_right j d e) below above asc =
    let (x, f, g, y) = IsAscending-split front back j d asc in
    IsAscending-join front back j (d + num) x f
      (All-map (λ (z : ℕ × ℕ). idx + num < z.0) (λ (z : ℕ × ℕ). j + (d + num) < z.0)
        (λ z h. omega (arith, h, e)) back above)
      y
Merged-IsAscending idx num front back m i c (to_left j d e) below above asc =
    let (x, f, g, y) = IsAscending-split front back j d asc in
    IsAscending-join front back idx (d + num) x below
      (All-map (λ (z : ℕ × ℕ). j + d < z.0) (λ (z : ℕ × ℕ). idx + (d + num) < z.0)
        (λ z h. omega (arith, h, e)) back g)
      y
Merged-IsAscending idx num front back m i c (between j d k n e h) below above asc =
    let (x, f, g, y) = IsAscending-split front ((k, n) ∷ back) j d asc in
    IsAscending-join front back j (d + num + n) x f
      (All-map (λ (z : ℕ × ℕ). k + n < z.0) (λ (z : ℕ × ℕ). j + (d + num + n) < z.0)
        (λ z q. omega (arith, q, e, h)) back y.0)
      y.1

pub Merged-units :
    (idx num : ℕ) (m : List (ℕ × ℕ)) (i c : ℕ) → Merged idx num m i c → c ≡ units m + num
Merged-units idx num m i c alone = omega arith
Merged-units idx num m i c (to_right j d e) = omega arith
Merged-units idx num m i c (to_left j d e) = omega arith
Merged-units idx num m i c (between j d k n e h) = omega arith

module _ (idx num : ℕ) (old new : List (ℕ × ℕ)) (a : Added idx num old new) where
  pub Added-IsAscending : IsAscending old → IsAscending new
  Added-IsAscending h = subst IsAscending (sym a.new_runs) (
      Merged-IsAscending idx num a.front a.back a.touched a.index a.count a.merged a.below a.above
        (subst IsAscending a.old_runs h))

  pub Added-All :
      (P : ℕ × ℕ → Type 0)
      → P (idx, num)
      → ((x y : ℕ × ℕ) → x.0 + x.1 ≡ y.0 → P x → P y → P (x.0, x.1 + y.1))
      → All P old
      → All P new
  Added-All P p f all =
      let (x, rest) = All-split P a.front (a.touched ++ a.back) (subst (All P) a.old_runs all) in
      let (m, y) = All-split P a.touched a.back rest in
      subst (All P) (sym a.new_runs) (
        All-append P a.front ((a.index, a.count) ∷ a.back) x
          ((Merged-lem idx num a.touched a.index a.count P a.merged p f m), y))

  pub Added-units : units new ≡ units old + num
  Added-units =
      let x = ap units a.old_runs ∙ units-append a.front (a.touched ++ a.back) in
      let y = units-append a.touched a.back in
      let z = ap units a.new_runs ∙ units-append a.front ((a.index, a.count) ∷ a.back) in
      omega (arith, x, y, z, Merged-units idx num a.touched a.index a.count a.merged)

-- Ascending runs below a bound have no more units than the bound.
pub units-bound :
    (k n : ℕ) (rs : List (ℕ × ℕ))
    → IsAscending rs
    → All (λ (x : ℕ × ℕ). k ≤ x.0) rs
    → All (λ (x : ℕ × ℕ). x.0 + x.1 < n) rs
    → k < n
    → units rs + k < n
units-bound k n [] asc low high lt = omega arith
units-bound k n ((i, c) ∷ rs) (all, asc) (l, low) (h, high) lt =
    let ih =
      units-bound (i + c) n rs asc
        (All-map (λ (x : ℕ × ℕ). i + c < x.0) (λ (x : ℕ × ℕ). i + c ≤ x.0) (λ x q. omega (arith, q))
          rs all)
        high h in
    omega (arith, ih, l)
