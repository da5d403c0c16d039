-- ===== src/Heap/CartesianTree/Insert/Descend.antt =====
-- CartesianTree.cj, lines 478-506: the first loop of MergeInsertInternal.
use mathlib.Core.Path.{subst}
use cjcj_runtime.Base.{
  ℕ, ◌+◌, ◌<◌, ◌≡◌, refl, sym, List, [], ◌∷◌, ◌++◌, arith, inl, inr, some, Bool-cases, ◌==◌, ltb,
}
use cjcj_runtime.Heap.CartesianTree.{Tree, null, node, runs}
use cjcj_runtime.Heap.CartesianTree.Order.{IsAscending, All-split, All-append, All-map}
use cjcj_runtime.Heap.CartesianTree.Insert.{Frame, on_left, on_right, merge_at, descend}
use cjcj_runtime.Heap.CartesianTree.Insert.Rotate.{before, after, runs-fill}
use cjcj_runtime.Heap.CartesianTree.Insert.Merge.{
  Entered, Arrived, whole, around, merge_right, merge_left,
}
use cjcj_runtime.Heap.CartesianTree.Insert.Added.{AreApart, alone}

module _ (idx num : ℕ) (path : List Frame) (l : Tree) (i c : ℕ) (r : Tree)
    (v : Entered idx num path (node l i c r)) where
  Entered-left : idx + num < i → Entered idx num (on_left i c r ∷ path) l
  unfolding runs
  Entered-left lt =
      let (_, _, g, _) = around idx num path l i c r v in
      let (apart, _) = All-split (AreApart idx num) (runs l) ((i, c) ∷ runs r) v.apart in
      record {
        ascending = subst IsAscending (runs-fill (on_left i c r) path l) v.ascending;
        below = v.below;
        above = (
          lt,
          All-map (λ (x : ℕ × ℕ). i + c < x.0) (λ (x : ℕ × ℕ). idx + num < x.0)
              (λ x h. omega (arith, h, lt)) (runs r ++ after path) g,
        );
        apart = apart;
        heap = v.heap.2;
        heap_above = (v.heap.0, v.heap.1, v.heap.3, v.heap_above);
        leads = (lt, v.leads);
      }

  Entered-right : i + c < idx → Entered idx num (on_right l i c ∷ path) r
  unfolding runs
  Entered-right lt =
      let (_, f, _, _) = around idx num path l i c r v in
      let (_, (_, apart)) = All-split (AreApart idx num) (runs l) ((i, c) ∷ runs r) v.apart in
      record {
        ascending = subst IsAscending (runs-fill (on_right l i c) path r) v.ascending;
        below =
            All-append (λ (x : ℕ × ℕ). x.0 + x.1 < idx) (before path) (runs l ++ (i, c) ∷ [])
              v.below
              (All-append (λ (x : ℕ × ℕ). x.0 + x.1 < idx) (runs l) ((i, c) ∷ [])
                (All-map (λ (x : ℕ × ℕ). x.0 + x.1 < i) (λ (x : ℕ × ℕ). x.0 + x.1 < idx)
                  (λ x h. omega (arith, h, lt)) (runs l)
                  (All-split (λ (x : ℕ × ℕ). x.0 + x.1 < i) (before path) (runs l) f).1)
                (lt, tt));
        above = v.above;
        apart = apart;
        heap = v.heap.3;
        heap_above = (v.heap.1, v.heap.0, v.heap.2, v.heap_above);
        leads = (lt, v.leads);
      }

-- Where the descent has ended.
pub record Landed (idx num : ℕ) (path : List Frame) (t : Tree) : Type 0 where
  pub tree : Tree
  pub way : List Frame
  pub ended : descend idx num t path ≡ some (tree, way)
  pub arrived : Arrived idx num (whole path t) way tree

module _ (idx num : ℕ) (positive : 0 < num) where
  pub descend-Landed :
      (path : List Frame) (t : Tree) → Entered idx num path t → Landed idx num path t
  unfolding descend merge_at runs
  descend-Landed path null v = record {
    tree = node null idx num null;
    way = path;
    ended = refl;
    arrived = record {
      kids = 0;
      heap = (omega arith, omega arith, tt, tt);
      small = (omega arith, omega arith);
      heap_above = v.heap_above;
      leads = v.leads;
      added = record {
        front = before path;
        back = after path;
        touched = [];
        index = idx;
        count = num;
        old_runs = refl;
        new_runs = refl;
        merged = alone;
        below = v.below;
        above = v.above;
      };
    };
  }
  descend-Landed path (node l i c r) v =
      let (_, (this, _)) = All-split (AreApart idx num) (runs l) ((i, c) ∷ runs r) v.apart in
      elim (Bool-cases (idx == i + c)) [
        | inl here ↦
            let (u, e, a) = merge_right idx num path l i c r v (ground (arith, here)) in
            record { tree = u; way = path; ended = ground (arith, here, e); arrived = a }
        | inr other ↦ elim (Bool-cases (idx + num == i)) [
          | inl here ↦
              let (u, e, a) = merge_left idx num path l i c r v (ground (arith, here)) in
              record { tree = u; way = path; ended = ground (arith, other, here, e); arrived = a }
          | inr apart ↦ elim (Bool-cases (ltb (idx + num) i)) [
            | inl lt ↦
                let ih =
                  descend-Landed (on_left i c r ∷ path) l
                    (Entered-left idx num path l i c r v (ground (arith, lt))) in
                record {
                  tree = ih.tree;
                  way = ih.way;
                  ended = ground (arith, other, apart, lt, ih.ended);
                  arrived =
                      subst (λ (x : List (ℕ × ℕ)). Arrived idx num x ih.way ih.tree)
                        (sym (runs-fill (on_left i c r) path l)) ih.arrived;
                }
            | inr ge ↦
                let gt : i + c < idx = ground (arith, other, apart, ge, this) in
                let ih =
                  descend-Landed (on_right l i c ∷ path) r
                    (Entered-right idx num path l i c r v gt) in
                record {
                  tree = ih.tree;
                  way = ih.way;
                  ended = ground (arith, other, apart, ge, gt, ih.ended);
                  arrived =
                      subst (λ (x : List (ℕ × ℕ)). Arrived idx num x ih.way ih.tree)
                        (sym (runs-fill (on_right l i c) path r)) ih.arrived;
                }
          ]
        ]
      ]
