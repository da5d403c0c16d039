-- ===== src/Heap/CartesianTree/Take/Cut.antt =====
-- CartesianTree.cj, lines 787-798: the first units of the run at a slot are taken.
use cjcj_runtime.Base.{ℕ, ◌+◌, ◌-◌, ◌^◌, ◌<◌, ◌≤◌, ◌≡◌, arith, false, ltb, leb}
use cjcj_runtime.Heap.CartesianTree.{Candidate, CartesianTree, Taken, taken, take_at}
use cjcj_runtime.Heap.CartesianTree.Order.{All-At, At}
use cjcj_runtime.Heap.CartesianTree.Take.{IsFree, Shrunk, at_slot-Shrunk}
use cjcj_runtime.Heap.CartesianTree.Take.Runs.{Shrunk-IsFree}

-- The first `num` units of the run at `index` are taken. The other runs stay as they are.
pub record Cut (num : ℕ) (t : CartesianTree) (index count : ℕ) (result : Taken) : Type 0 where
  pub after : CartesianTree
  pub returned : result ≡ taken index after
  pub change : Shrunk num t.root index count after.root
  pub total : after.total_count + num ≡ t.total_count
  pub free : IsFree after

pub take_at-Cut :
    (num : ℕ) (t : CartesianTree) (b : Candidate)
    → IsFree t
    → num ≤ b.count
    → At t.root b.slot b.index b.count
    → Cut num t b.index b.count (take_at num t b)
unfolding take_at
take_at-Cut num t b free enough there =
    let (u, e, s) = at_slot-Shrunk num t.root b.slot b.index b.count free.heap there in
    let (le, f) = Shrunk-IsFree num t b.index b.count u enough free s in
    let fits =
      All-At (λ (x : ℕ × ℕ). x.0 + x.1 < 2 ^ 32) t.root b.slot b.index b.count free.in_range
        there in
    let in_range : leb (2 ^ 32) (b.index + num) ≡ false = ground (arith, fits, enough) in
    let covered : ltb t.total_count num ≡ false = ground (arith, le) in
    record {
      after = record { total_count = t.total_count - num; root = u };
      returned = ground (arith, in_range, covered, e);
      change = s;
      total = omega (arith, le);
      free = f;
    }
