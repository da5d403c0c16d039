-- ===== src/Heap/CartesianTree/Roundtrip.antt =====
-- CartesianTree.cj: TakeUnitsLowAddr and MergeInsert one after the other.
use mathlib.Core.Path.{subst}
use cjcj_runtime.Base.{
  ℕ, ◌+◌, ◌-◌, ◌^◌, ◌<◌, ◌≤◌, ◌≡◌, refl, sym, ap, ◌∙◌, List, [], ◌∷◌, ◌++◌, arith, inl, inr, All,
  Bool-cases, ◌==◌, ltb, if◌then◌else◌,
}
use cjcj_runtime.Heap.CartesianTree.{Tree, runs, CartesianTree, taken, take_units_low_addr}
use cjcj_runtime.Heap.CartesianTree.Order.{
  All-append, All-map, IsAscending, IsAscending-split, All-split,
}
use cjcj_runtime.Heap.CartesianTree.Take.{IsFree, Shrunk, rest_of, units}
use cjcj_runtime.Heap.CartesianTree.Take.Lowest.{BestFit, take_units_low_addr-BestFit}
use cjcj_runtime.Heap.CartesianTree.Insert.{inserted, merge_insert}
use cjcj_runtime.Heap.CartesianTree.Insert.Added.{
  AreApart, Merged, alone, to_right, to_left, between, Added, Merged-units,
}
use cjcj_runtime.Heap.CartesianTree.Insert.Give.{merge_insert-Given}

abbrev tail_of : List (ℕ × ℕ) → List (ℕ × ℕ)
tail_of [] = []
tail_of (x ∷ xs) = xs

abbrev head_of : List (ℕ × ℕ) → ℕ × ℕ
head_of [] = (0, 0)
head_of (x ∷ xs) = x

-- A list is cut in one way only where a predicate ends and another begins.
module _ (P Q : ℕ × ℕ → Type 0) (apart : (x : ℕ × ℕ) → P x → Q x → ⊥) where
  cut_unique :
      (a b c d : List (ℕ × ℕ))
      → a ++ b ≡ c ++ d
      → All P a
      → All Q b
      → All P c
      → All Q d
      → (a ≡ c) × (b ≡ d)
  cut_unique [] b [] d e pa qb pc qd = (refl, e)
  cut_unique [] b (x ∷ c) d e pa qb (p, pc) qd = absurd (apart x p (subst (All Q) e qb).0)
  cut_unique (x ∷ a) b [] d e (p, pa) qb pc qd = absurd (apart x p (subst (All Q) (sym e) qd).0)
  cut_unique (x ∷ a) b (y ∷ c) d e (p, pa) qb (q, pc) qd =
      let (f, g) = cut_unique a b c d (ap tail_of e) pa qb pc qd in
      (ap (λ (z : ℕ × ℕ). z ∷ a) (ap head_of e) ∙ ap (λ (z : List (ℕ × ℕ)). y ∷ z) f, g)

-- Where the merged run starts.
abbrev start : ℕ → List (ℕ × ℕ) → ℕ
start idx [] = idx
start idx (x ∷ xs) = if ltb x.0 idx then x.0 else idx

Merged-start : (idx num : ℕ) (m : List (ℕ × ℕ)) (i c : ℕ) → Merged idx num m i c → i ≡ start idx m
Merged-start idx num m i c alone = refl
Merged-start idx num m i c (to_right j d e) = ground arith
Merged-start idx num m i c (to_left j d e) = ground arith
Merged-start idx num m i c (between j d k n e h) = ground arith

Merged-reach :
    (idx num : ℕ) (m : List (ℕ × ℕ)) (i c : ℕ)
    → Merged idx num m i c
    → All (λ (x : ℕ × ℕ). idx ≤ x.0 + x.1) m × All (λ (x : ℕ × ℕ). x.0 ≤ idx + num) m
Merged-reach idx num m i c alone = (tt, tt)
Merged-reach idx num m i c (to_right j d e) = ((omega (arith, e), tt), (omega (arith, e), tt))
Merged-reach idx num m i c (to_left j d e) = ((omega (arith, e), tt), (omega (arith, e), tt))
Merged-reach idx num m i c (between j d k n e h) =
    ((omega (arith, e), (omega (arith, h), tt)), (omega (arith, e), (omega (arith, h), tt)))

-- There is one way to add a run.
Added-unique :
    (idx num : ℕ) (old new other : List (ℕ × ℕ))
    → Added idx num old new
    → Added idx num old other
    → new ≡ other
Added-unique idx num old new other a b =
    let far : (x : ℕ × ℕ) → idx + num < x.0 → idx ≤ x.0 + x.1 = λ x h. omega (arith, h) in
    let (ra, sa) = Merged-reach idx num a.touched a.index a.count a.merged in
    let (rb, sb) = Merged-reach idx num b.touched b.index b.count b.merged in
    let Back = λ (x : ℕ × ℕ). idx + num < x.0 in
    let Rest = λ (x : ℕ × ℕ). idx ≤ x.0 + x.1 in
    let (fronts, rests) =
      cut_unique (λ (x : ℕ × ℕ). x.0 + x.1 < idx) Rest (λ x h k. omega (arith, h, k)) a.front
        (a.touched ++ a.back) b.front (b.touched ++ b.back) (sym a.old_runs ∙ b.old_runs) a.below
        (All-append Rest a.touched a.back ra (All-map Back Rest far a.back a.above)) b.below
        (All-append Rest b.touched b.back rb (All-map Back Rest far b.back b.above)) in
    let (touched, backs) =
      cut_unique (λ (x : ℕ × ℕ). x.0 ≤ idx + num) Back (λ x h k. omega (arith, h, k)) a.touched
        a.back b.touched b.back rests sa a.above sb b.above in
    let i = Merged-start idx num a.touched a.index a.count a.merged in
    let j = Merged-start idx num b.touched b.index b.count b.merged in
    let c = Merged-units idx num a.touched a.index a.count a.merged in
    let d = Merged-units idx num b.touched b.index b.count b.merged in
    let same_index : a.index ≡ b.index = i ∙ ap (start idx) touched ∙ sym j in
    let same_count : a.count ≡ b.count =
      c ∙ ap (λ (m : List (ℕ × ℕ)). units m + num) touched ∙ sym d in
    a.new_runs
    ∙ ap (λ (x : List (ℕ × ℕ)). x ++ (a.index, a.count) ∷ a.back) fronts
    ∙ ap (λ (x : ℕ). b.front ++ (x, a.count) ∷ a.back) same_index
    ∙ ap (λ (x : ℕ). b.front ++ (b.index, x) ∷ a.back) same_count
    ∙ ap (λ (x : List (ℕ × ℕ)). b.front ++ (b.index, b.count) ∷ x) backs
    ∙ sym b.new_runs

module _ (num : ℕ) (t : CartesianTree) (j d : ℕ) (u : Tree) (positive : 0 < num) (enough : num ≤ d)
    (s : Shrunk num t.root j d u) (ascending : IsAscending (runs t.root)) where
  -- The units that were taken are free of the other runs, and the old runs are the new ones with
  -- them.
  taken-apart : All (AreApart j num) (runs u)
  taken-apart =
      let (_, f, g, _) =
        IsAscending-split s.before s.after j d (subst IsAscending s.old_runs ascending) in
      let low =
        All-map (λ (x : ℕ × ℕ). x.0 + x.1 < j) (AreApart j num) (λ x h. inl (omega (arith, h)))
          s.before f in
      let high =
        All-map (λ (x : ℕ × ℕ). j + d < x.0) (AreApart j num)
          (λ x h. inr (omega (arith, h, enough))) s.after g in
      subst (All (AreApart j num)) (sym s.new_runs) (
        All-append (AreApart j num) s.before (rest_of num j d ++ s.after) low
          (elim (Bool-cases (d - num == 0)) [
            | inl none_left ↦ rw none_left high
            | inr some_left ↦ rw some_left ((inr (omega arith)), high)
          ]))

  taken-Added : Added j num (runs u) (runs t.root)
  taken-Added =
      let (_, f, g, _) =
        IsAscending-split s.before s.after j d (subst IsAscending s.old_runs ascending) in
      record {
        front = s.before;
        back = s.after;
        touched = rest_of num j d;
        index = j;
        count = d;
        old_runs = s.new_runs;
        new_runs = s.old_runs;
        merged = elim (Bool-cases (d - num == 0)) [
          | inl none_left ↦
              let whole : num ≡ d = ground (arith, none_left, enough) in
              rw none_left (subst (Merged j num [] j) whole alone)
          | inr some_left ↦
              let back : d - num + num ≡ d = omega (arith, enough) in
              rw some_left (
                subst (Merged j num ((j + num, d - num) ∷ []) j) back
                  (to_left (j + num) (d - num) refl))
        ];
        below = f;
        above =
            All-map (λ (x : ℕ × ℕ). j + d < x.0) (λ (x : ℕ × ℕ). j + num < x.0)
              (λ x h. omega (arith, h, enough)) s.after g;
      }

given_back :
    (num : ℕ) (t : CartesianTree)
    → 0 < num
    → IsFree t
    → (b : BestFit num t (take_units_low_addr num t))
    → (w : CartesianTree) × (merge_insert b.index num b.after ≡ inserted w)
      × (runs w.root ≡ runs t.root)
      × (w.total_count ≡ t.total_count)
given_back num t positive free b =
    let s = b.change in
    let (_, (this, _)) =
      All-split (λ (x : ℕ × ℕ). x.0 + x.1 < 2 ^ 32) s.before ((b.index, b.count) ∷ s.after)
        (subst (All (λ (x : ℕ × ℕ). x.0 + x.1 < 2 ^ 32)) s.old_runs free.in_range) in
    let apart = taken-apart num t b.index b.count b.after.root positive b.enough s free.ascending in
    let add = taken-Added num t b.index b.count b.after.root positive b.enough s free.ascending in
    let g =
      merge_insert-Given b.index num b.after positive (omega (arith, this, b.enough)) apart
        b.free in
    (
      g.tree,
      g.returned,
      Added-unique b.index num (runs b.after.root) (runs g.tree.root) (runs t.root) g.added add,
      g.total ∙ b.total,
    )

-- Units that were taken from a tree that satisfies the invariant can be given back: the insertion
-- succeeds, and the tree then has the same runs and the same total as before.
pub take_units_low_addr-merge_insert :
    (num : ℕ) (t u : CartesianTree) (i : ℕ)
    → 0 < num
    → IsFree t
    → take_units_low_addr num t ≡ taken i u
    → (w : CartesianTree) × (merge_insert i num u ≡ inserted w)
      × (runs w.root ≡ runs t.root)
      × (w.total_count ≡ t.total_count)
take_units_low_addr-merge_insert num t u i positive free e =
    elim (take_units_low_addr-BestFit num t positive free) [
      | inl b ↦
          let same = sym b.returned ∙ e in
          let (w, g, r, n) = given_back num t positive free b in
          let at : b.index ≡ i = cc same in
          let tree : b.after ≡ u = cc same in
          (
            w,
            ap (λ (x : ℕ). merge_insert x num u) (sym at)
                ∙ ap (merge_insert b.index num) (sym tree)
                ∙ g,
            r,
            n,
          )
      | inr (r, all) ↦ absurd (cc (r, e))
    ]
