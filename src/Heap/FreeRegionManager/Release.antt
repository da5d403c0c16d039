-- ===== src/Heap/FreeRegionManager/Release.antt =====
-- FreeRegionManager.cj, lines 304-335: ReleaseGarbageRegions.
use cjcj_runtime.Base.{
  ℕ, zero, suc, ◌+◌, ◌*◌, ◌^◌, ◌<◌, ◌≤◌, ◌≡◌, refl, ap, ◌∙◌, arith, inl, inr, Bool-cases, ltb, leb,
  false,
}
use cjcj_runtime.Heap.CartesianTree.{Tree, null, node, runs, CartesianTree}
use cjcj_runtime.Heap.CartesianTree.Take.{IsFree}
use cjcj_runtime.Heap.CartesianTree.Insert.Added.{units-bound}
use cjcj_runtime.Heap.CartesianTree.Insert.Give.{All-any}
use cjcj_runtime.Heap.CartesianTree.Root.{release_root_node}
use cjcj_runtime.Heap.FreeRegionManager.{
  FreeRegionManager, done, add_release_units, with_released, give_root, swept, dirty_bytes,
  unit_size, release_loop, release_garbage_regions,
}
use cjcj_runtime.Heap.FreeRegionManager.Covers.{covers}
use cjcj_runtime.Heap.FreeRegionManager.Moves.{merge_insert-Entered, release_root_node-Left}

abbrev in_trees : ℕ → FreeRegionManager → ℕ
in_trees k m = covers k (runs m.dirty_unit_tree.root) + covers k (runs m.released_unit_tree.root)

-- Both trees keep their invariant, and no unit is in two runs.
pub record AreFree (m : FreeRegionManager) : Type 0 where
  pub dirty : IsFree m.dirty_unit_tree
  pub released : IsFree m.released_unit_tree
  pub once : (k : ℕ) → in_trees k m ≤ 1

-- `bytes` bytes have been released between `m` and `m'`.
pub record Released (bytes : ℕ) (m m' : FreeRegionManager) : Type 0 where
  pub bytes_moved : bytes + dirty_bytes m' ≡ dirty_bytes m
  pub same_total :
      m'.dirty_unit_tree.total_count + m'.released_unit_tree.total_count
      ≡ m.dirty_unit_tree.total_count + m.released_unit_tree.total_count
  pub same_units : (k : ℕ) → in_trees k m' ≡ in_trees k m
  pub free : AreFree m'

-- A round of the loop.
module _ (total : ℕ) (l : Tree) (i c : ℕ) (r : Tree) (released : CartesianTree) where
  abbrev before : FreeRegionManager
  before = record {
    released_unit_tree = released;
    dirty_unit_tree = record { total_count = total; root = node l i c r };
  }

  give_root-Released :
      AreFree before
      → (m' : FreeRegionManager) × (give_root i c before (release_root_node before.dirty_unit_tree)
          ≡ done m')
        × Released (c * unit_size) before m'
        × (0 < c)
  unfolding add_release_units
  give_root-Released free =
      let (t, e, left) = release_root_node-Left total l i c r free.dirty in
      let (u, f, n) =
        merge_insert-Entered i c released left.positive left.in_range
          (λ k. omega (arith, free.once k, left.units k)) free.released in
      (
        record { released_unit_tree = u; dirty_unit_tree = t },
        ap (give_root i c before) e ∙ ap (with_released (record before { dirty_unit_tree = t })) f,
        record {
          bytes_moved = omega (arith, left.total);
          same_total = omega (arith, left.total, n.total);
          same_units = λ k. omega (arith, left.units k, n.units k);
          free = record {
            dirty = left.free;
            released = n.free;
            once = λ k. omega (arith, left.units k, n.units k, free.once k);
          };
        },
        left.positive,
      )

Released-refl : (m : FreeRegionManager) → AreFree m → Released 0 m m
Released-refl m free = record {
  bytes_moved = omega arith;
  same_total = refl;
  same_units = λ k. refl;
  free = free;
}

Released-trans :
    (a b : ℕ) (m n o : FreeRegionManager) → Released a m n → Released b n o → Released (a + b) m o
Released-trans a b m n o x y = record {
  bytes_moved = omega (arith, x.bytes_moved, y.bytes_moved);
  same_total = y.same_total ∙ x.same_total;
  same_units = λ k. y.same_units k ∙ x.same_units k;
  free = y.free;
}

-- How the loop ends.
abbrev Ends : ℕ → ℕ → ℕ → FreeRegionManager → Type 0
Ends n target bytes m =
    (b : ℕ) × (m' : FreeRegionManager) × (release_loop n target bytes m ≡ swept (bytes + b) m')
    × Released b m m'
    × (dirty_bytes m' ≤ target)

release_loop-Ends :
    (n target bytes total : ℕ) (root : Tree) (released : CartesianTree)
    → total < n
    → bytes + total * unit_size < 2 ^ 64
    → AreFree (record {
      released_unit_tree = released;
      dirty_unit_tree = record { total_count = total; root = root };
    })
    → Ends n target bytes (record {
      released_unit_tree = released;
      dirty_unit_tree = record { total_count = total; root = root };
    })
unfolding release_loop runs
release_loop-Ends zero target bytes total root released fuel fits free = absurd (omega arith)
release_loop-Ends (suc n) target bytes total null released fuel fits free =
    let none_left : total ≡ 0 = free.dirty.total in
    let m : FreeRegionManager = record {
      released_unit_tree = released;
      dirty_unit_tree = record { total_count = total; root = null };
    } in
    let little : ltb target (total * unit_size) ≡ false = ground (arith, none_left) in
    (0, m, ground (arith, little), Released-refl m free, omega (arith, none_left))
release_loop-Ends (suc n) target bytes total (node l i c r) released fuel fits free =
    let m = before total l i c r released in
    elim (Bool-cases (ltb target (total * unit_size))) [
      | inr little ↦ (0, m, ground (arith, little), Released-refl m free, ground (arith, little))
      | inl much ↦
          let (m', e, moved, positive) = give_root-Released total l i c r released free in
          let t = m'.dirty_unit_tree in
          let room : leb (2 ^ 64) (bytes + c * unit_size) ≡ false =
            ground (arith, moved.bytes_moved, fits) in
          let (b, o, f, rest, end) =
            release_loop-Ends n target (bytes + c * unit_size) t.total_count t.root
              m'.released_unit_tree (omega (arith, moved.bytes_moved, positive, fuel))
              (omega (arith, moved.bytes_moved, fits)) moved.free in
          let sum : bytes + c * unit_size + b ≡ bytes + (c * unit_size + b) = omega arith in
          (
            c * unit_size + b,
            o,
            ground (arith, much, e, room, f, sum),
            Released-trans (c * unit_size) b m m' o moved rest,
            end,
          )
    ]

-- With both trees in order, `ReleaseGarbageRegions` ends and never fails. It leaves at most the
-- target's bytes in the dirty tree; the bytes that it returns are exactly those by which the dirty
-- tree has shrunk; every unit that was in one of the trees is in one of them still, and no other;
-- and both trees keep their invariant.
pub release_garbage_regions-Released :
    (target : ℕ) (m : FreeRegionManager)
    → AreFree m
    → (bytes : ℕ) × (m' : FreeRegionManager) × (release_garbage_regions target m ≡ swept bytes m')
      × Released bytes m m'
      × (dirty_bytes m' ≤ target)
unfolding release_garbage_regions
release_garbage_regions-Released target m free =
    let d = m.dirty_unit_tree in
    elim (Bool-cases (leb (dirty_bytes m) target)) [
      | inl little ↦ (0, m, ground (arith, little), Released-refl m free, ground (arith, little))
      | inr much ↦
          let few =
            units-bound 0 (2 ^ 32) (runs d.root) free.dirty.ascending (All-any (runs d.root))
              free.dirty.in_range (omega arith) in
          let (b, o, f, moved, end) =
            release_loop-Ends (suc d.total_count) target 0 d.total_count d.root m.released_unit_tree
              (omega arith) (omega (arith, few, free.dirty.total)) free in
          let sum : 0 + b ≡ b = omega arith in (b, o, ground (arith, much, f, sum), moved, end)
    ]
