-- ===== src/Bridge/AllocBuffer.antt =====
-- rt0/AllocBufferNative.cpp, lines 52-94: the prepared region and the stack roots of an allocation
-- buffer, in storage that the Cangjie side owns. Regions and objects are their addresses; 0 is
-- `nullptr`.
pub mod History
use cjcj_runtime.Base.{ℕ, Bool, true, false, ◌==◌, if◌then◌else◌, List, [], ◌∷◌, ◌++◌}

-- `std::atomic<RegionInfo*>` and `std::list<BaseObject*>` at their places in the buffer.
pub record AllocBuffer : Type 0 where
  pub prepared_region : ℕ
  pub stack_roots : List ℕ

unfoldable pub prepared_construct : AllocBuffer → AllocBuffer
prepared_construct b = record b { prepared_region = 0 }

unfoldable pub prepared_load_relaxed : AllocBuffer → ℕ
prepared_load_relaxed b = b.prepared_region

-- `compare_exchange_strong` from `nullptr`.
unfoldable pub prepared_compare_exchange_release : AllocBuffer → ℕ → AllocBuffer × Bool
prepared_compare_exchange_release b desired =
    if b.prepared_region == 0 then (record b { prepared_region = desired }, true) else (b, false)

unfoldable pub stack_roots_construct : AllocBuffer → AllocBuffer
stack_roots_construct b = record b { stack_roots = [] }

unfoldable pub push_root : AllocBuffer → ℕ → AllocBuffer
push_root b root = record b { stack_roots = b.stack_roots ++ root ∷ [] }

-- The loop over the roots, each pushed behind the others.
unfoldable pub push_all : List ℕ → List ℕ → List ℕ
push_all [] work_stack = work_stack
push_all (object ∷ objects) work_stack = push_all objects (work_stack ++ object ∷ [])

abbrev pub is_empty : List ℕ → Bool
is_empty [] = true
is_empty (x ∷ xs) = false

unfoldable pub merge_roots : AllocBuffer → List ℕ → AllocBuffer × List ℕ
unfolding push_all
merge_roots b work_stack =
    if is_empty b.stack_roots
    then (b, work_stack)
    else (record b { stack_roots = [] }, push_all b.stack_roots work_stack)

-- The calls on one buffer, in the order in which they take effect. `prepares` is the attempt of a
-- thread to leave a region; `merges` is the collector's, with its work stack.
pub data Call : Type 0 where
  pushes : ℕ → Call
  prepares : ℕ → Call
  merges : Call

pub record State : Type 0 where
  pub buffer : AllocBuffer
  pub work_stack : List ℕ
  -- The regions whose attempt has succeeded, the latest first.
  pub accepted : List ℕ

unfoldable pub step : State → Call → State
step s (pushes root) = record s { buffer = push_root s.buffer root }
step s (prepares region) =
    let (b, success) = prepared_compare_exchange_release s.buffer region in
    record s { buffer = b; accepted = if success then region ∷ s.accepted else s.accepted }
step s merges =
    let (b, w) = merge_roots s.buffer s.work_stack in record s { buffer = b; work_stack = w }

unfoldable pub run : State → List Call → State
run s [] = s
run s (c ∷ cs) = run (step s c) cs

-- What a history pushes, and the regions that it offers.
abbrev pub pushed : List Call → List ℕ
pushed [] = []
pushed (pushes root ∷ cs) = root ∷ pushed cs
pushed (prepares region ∷ cs) = pushed cs
pushed (merges ∷ cs) = pushed cs

abbrev pub offered : List Call → List ℕ
offered [] = []
offered (pushes root ∷ cs) = offered cs
offered (prepares region ∷ cs) = region ∷ offered cs
offered (merges ∷ cs) = offered cs

-- The roots on the work stack and those still in the buffer, in the order of their pushes.
abbrev pub roots : State → List ℕ
roots s = s.work_stack ++ s.buffer.stack_roots
