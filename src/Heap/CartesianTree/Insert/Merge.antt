-- ===== src/Heap/CartesianTree/Insert/Merge.antt =====
-- CartesianTree.cj, lines 372-466: the node where the descent ends by a merge.
use mathlib.Core.Path.{subst}
use mathlib.Core.List.{append_assoc}
use cjcj_runtime.Base.{ℕ, ◌+◌, ◌<◌, ◌≤◌, ◌≡◌, refl, sym, ap, ◌∙◌, List, [], ◌∷◌, ◌++◌, arith, All}
use cjcj_runtime.Heap.CartesianTree.{Tree, node, runs, count_of}
use cjcj_runtime.Heap.CartesianTree.Order.{
  IsHeap, IsAscending, IsAscending-split, All-split, All-append, All-map, All-zip,
}
use cjcj_runtime.Heap.CartesianTree.Insert.{
  Frame, detach_first, detach_last, merge_success, grow_right, grow_left,
}
use cjcj_runtime.Heap.CartesianTree.Insert.Rotate.{
  before, after, IsHeapAbove, LeadsTo, HasSmallKids,
}
use cjcj_runtime.Heap.CartesianTree.Insert.Detach.{
  none_first, some_first, none_last, some_last, detach_first-IsFirst, detach_last-IsLast,
}
use cjcj_runtime.Heap.CartesianTree.Insert.Added.{
  AreApart, Merged, IsAscending-parts, to_right, to_left, between, Added,
}

-- All runs, with `t` at the slot.
abbrev pub whole : List Frame → Tree → List (ℕ × ℕ)
whole path t = before path ++ (runs t ++ after path)

-- The descent has come to the slot of `t`.
pub record Entered (idx num : ℕ) (path : List Frame) (t : Tree) : Type 0 where
  pub ascending : IsAscending (whole path t)
  pub below : All (λ (x : ℕ × ℕ). x.0 + x.1 < idx) (before path)
  pub above : All (λ (x : ℕ × ℕ). idx + num < x.0) (after path)
  pub apart : All (AreApart idx num) (runs t)
  pub heap : IsHeap t
  pub heap_above : IsHeapAbove path (count_of t)
  pub leads : LeadsTo idx num path

-- The descent has ended with `t` at the slot, and the run is added to the runs `old`.
pub record Arrived (idx num : ℕ) (old : List (ℕ × ℕ)) (path : List Frame) (t : Tree) : Type 0 where
  pub kids : ℕ
  pub heap : IsHeap t
  pub small : HasSmallKids t kids
  pub heap_above : IsHeapAbove path kids
  pub leads : LeadsTo idx num path
  pub added : Added idx num old (whole path t)

regroup :
    (b l : List (ℕ × ℕ)) (x : ℕ × ℕ) (r a : List (ℕ × ℕ))
    → b ++ ((l ++ x ∷ r) ++ a) ≡ (b ++ l) ++ x ∷ (r ++ a)
regroup b l x r a = ap (◌++◌ b) (append_assoc l (x ∷ r) a) ∙ sym (append_assoc b l (x ∷ (r ++ a)))

module _ (idx num : ℕ) (path : List Frame) (l : Tree) (i c : ℕ) (r : Tree)
    (v : Entered idx num path (node l i c r)) where
  -- The runs around the node are ascending.
  pub around :
      IsAscending (runs l)
      × All (λ (x : ℕ × ℕ). x.0 + x.1 < i) (before path ++ runs l)
      × All (λ (x : ℕ × ℕ). i + c < x.0) (runs r ++ after path)
      × IsAscending (runs r)
  unfolding runs
  around =
      let (x, f, g, y) = IsAscending-split (before path ++ runs l) (runs r ++ after path) i c (
        subst IsAscending (regroup (before path) (runs l) (i, c) (runs r) (after path))
          v.ascending) in
      (
        (IsAscending-parts (before path) (runs l) x).1,
        f,
        g,
        (IsAscending-parts (runs r) (after path) y).0,
      )

  -- The runs below the node that are not apart from the new run touch it.
  far_right : idx ≡ i + c → All (λ (x : ℕ × ℕ). idx + num ≤ x.0) (runs r)
  unfolding runs
  far_right e =
      let (_, _, g, _) = around in
      let (_, (_, q)) = All-split (AreApart idx num) (runs l) ((i, c) ∷ runs r) v.apart in
      All-zip (λ (x : ℕ × ℕ). i + c < x.0) (AreApart idx num) (λ (x : ℕ × ℕ). idx + num ≤ x.0)
        (λ x h k. ground (arith, h, k, e)) (runs r)
        (All-split (λ (x : ℕ × ℕ). i + c < x.0) (runs r) (after path) g).0 q

  far_left : idx + num ≡ i → All (λ (x : ℕ × ℕ). x.0 + x.1 ≤ idx) (runs l)
  unfolding runs
  far_left e =
      let (_, f, _, _) = around in
      let (q, _) = All-split (AreApart idx num) (runs l) ((i, c) ∷ runs r) v.apart in
      All-zip (λ (x : ℕ × ℕ). x.0 + x.1 < i) (AreApart idx num) (λ (x : ℕ × ℕ). x.0 + x.1 ≤ idx)
        (λ x h k. ground (arith, h, k, e)) (runs l)
        (All-split (λ (x : ℕ × ℕ). x.0 + x.1 < i) (before path) (runs l) f).1 q

  pub merge_right :
      idx ≡ i + c
      → (t : Tree) × (grow_right l i (c + num) r (detach_first (idx + num) r) ≡ merge_success t)
        × Arrived idx num (whole path (node l i c r)) path t
  unfolding runs
  merge_right e =
      let (_, f, _, asc_r) = around in
      let low : All (λ (x : ℕ × ℕ). x.0 + x.1 < idx) (before path ++ runs l) =
        All-map (λ (x : ℕ × ℕ). x.0 + x.1 < i) (λ (x : ℕ × ℕ). x.0 + x.1 < idx)
          (λ x h. omega (arith, h, e)) (before path ++ runs l) f in
      elim (detach_first-IsFirst (idx + num) r v.heap.3 asc_r (far_right e)) [
        | none_first g all ↦ (
          node l i (c + num) r,
          rw g refl,
          record {
            kids = c;
            heap = (omega (arith, v.heap.0), omega (arith, v.heap.1), v.heap.2, v.heap.3);
            small = (v.heap.0, v.heap.1);
            heap_above = v.heap_above;
            leads = v.leads;
            added = record {
              front = before path ++ runs l;
              back = runs r ++ after path;
              touched = (i, c) ∷ [];
              index = i;
              count = c + num;
              old_runs = regroup (before path) (runs l) (i, c) (runs r) (after path);
              new_runs = regroup (before path) (runs l) (i, c + num) (runs r) (after path);
              merged = to_right i c (sym e);
              below = low;
              above = All-append (λ (x : ℕ × ℕ). idx + num < x.0) (runs r) (after path) all v.above;
            };
          },
        )
        | some_first d u g same hu le ↦ (
          node l i (c + num + d) u,
          rw g refl,
          record {
            kids = c;
            heap = (omega (arith, v.heap.0), omega (arith, le, v.heap.1), v.heap.2, hu);
            small = (v.heap.0, omega (arith, le, v.heap.1));
            heap_above = v.heap_above;
            leads = v.leads;
            added = record {
              front = before path ++ runs l;
              back = runs u ++ after path;
              touched = (i, c) ∷ (idx + num, d) ∷ [];
              index = i;
              count = c + num + d;
              old_runs =
                  regroup (before path) (runs l) (i, c) (runs r) (after path)
                  ∙ ap (λ (x : List (ℕ × ℕ)). (before path ++ runs l) ++ (i, c) ∷ (x ++ after path))
                      same;
              new_runs = regroup (before path) (runs l) (i, c + num + d) (runs u) (after path);
              merged = between i c (idx + num) d (sym e) refl;
              below = low;
              above =
                  All-append (λ (x : ℕ × ℕ). idx + num < x.0) (runs u) (after path)
                    (All-map (λ (x : ℕ × ℕ). idx + num + d < x.0) (λ (x : ℕ × ℕ). idx + num < x.0)
                      (λ x h. omega (arith, h)) (runs u) (subst IsAscending same asc_r).0)
                    v.above;
            };
          },
        )
      ]

  pub merge_left :
      idx + num ≡ i
      → (t : Tree) × (grow_left l idx (c + num) r (detach_last idx l) ≡ merge_success t)
        × Arrived idx num (whole path (node l i c r)) path t
  unfolding runs
  merge_left e =
      let (asc_l, _, g, _) = around in
      let high : All (λ (x : ℕ × ℕ). idx + num < x.0) (runs r ++ after path) =
        All-map (λ (x : ℕ × ℕ). i + c < x.0) (λ (x : ℕ × ℕ). idx + num < x.0)
          (λ x h. omega (arith, h, e)) (runs r ++ after path) g in
      elim (detach_last-IsLast idx l v.heap.2 asc_l (far_left e)) [
        | none_last g all ↦ (
          node l idx (c + num) r,
          rw g refl,
          record {
            kids = c;
            heap = (omega (arith, v.heap.0), omega (arith, v.heap.1), v.heap.2, v.heap.3);
            small = (v.heap.0, v.heap.1);
            heap_above = v.heap_above;
            leads = v.leads;
            added = record {
              front = before path ++ runs l;
              back = runs r ++ after path;
              touched = (i, c) ∷ [];
              index = idx;
              count = c + num;
              old_runs = regroup (before path) (runs l) (i, c) (runs r) (after path);
              new_runs = regroup (before path) (runs l) (idx, c + num) (runs r) (after path);
              merged = to_left i c e;
              below =
                  All-append (λ (x : ℕ × ℕ). x.0 + x.1 < idx) (before path) (runs l) v.below all;
              above = high;
            };
          },
        )
        | some_last j d u g at same hu le ↦
            let (_, p, _, _) = IsAscending-split (runs u) [] j d (subst IsAscending same asc_l) in
            (
              node u j (c + num + d) r,
              rw g refl,
              record {
                kids = c;
                heap = (omega (arith, le, v.heap.0), omega (arith, v.heap.1), hu, v.heap.3);
                small = (omega (arith, le, v.heap.0), v.heap.1);
                heap_above = v.heap_above;
                leads = v.leads;
                added = record {
                  front = before path ++ runs u;
                  back = runs r ++ after path;
                  touched = (j, d) ∷ (i, c) ∷ [];
                  index = j;
                  count = c + num + d;
                  old_runs =
                      ap
                        (λ (x : List (ℕ × ℕ)).
                          before path ++ ((x ++ (i, c) ∷ runs r) ++ after path))
                        same
                      ∙ ap (λ (x : List (ℕ × ℕ)). before path ++ (x ++ after path))
                          (append_assoc (runs u) ((j, d) ∷ []) ((i, c) ∷ runs r))
                      ∙ regroup (before path) (runs u) (j, d) ((i, c) ∷ runs r) (after path);
                  new_runs = regroup (before path) (runs u) (j, c + num + d) (runs r) (after path);
                  merged =
                      subst (Merged idx num ((j, d) ∷ (i, c) ∷ []) j) (omega arith)
                        (between j d i c at e);
                  below =
                      All-append (λ (x : ℕ × ℕ). x.0 + x.1 < idx) (before path) (runs u) v.below
                        (All-map (λ (x : ℕ × ℕ). x.0 + x.1 < j) (λ (x : ℕ × ℕ). x.0 + x.1 < idx)
                          (λ x h. omega (arith, h, at)) (runs u) p);
                  above = high;
                };
              },
            )
      ]
