-- ===== src/Heap/CartesianTree/Insert.antt =====
-- CartesianTree.cj, lines 292-309 and 371-532: a run is given back to the tree and merged with
-- the runs that it touches.
pub mod Rotate
pub mod Detach
pub mod Added
pub mod Descend
pub mod Give
pub mod Merge
use cjcj_runtime.Base.{
  ℕ, ◌+◌, ◌^◌, true, false, ◌==◌, ltb, leb, if◌then◌else◌, Option, none, some, List, [], ◌∷◌,
}
use cjcj_runtime.Heap.CartesianTree.{Tree, null, node, count_of, CartesianTree}

-- The node that touches the new run on its far side, taken out of a subtree: the loops of
-- `MergeToRight` and `MergeToLeft`. It is replaced by its only child.
pub data Detached : Type 0 where
  absent : Detached
  detached : ℕ → ℕ → Tree → Detached
  error : Detached

abbrev pub in_left_child : Detached → ℕ → ℕ → Tree → Detached
in_left_child absent i c r = absent
in_left_child (detached j d l) i c r = detached j d (node l i c r)
in_left_child error i c r = error

abbrev pub in_right_child : Tree → ℕ → ℕ → Detached → Detached
in_right_child l i c absent = absent
in_right_child l i c (detached j d r) = detached j d (node l i c r)
in_right_child l i c error = error

abbrev pub only_child : ℕ → ℕ → Tree → Tree → Detached
only_child i c null r = detached i c r
only_child i c (node ll li lc lr) r = error

unfoldable pub detach_first : ℕ → Tree → Detached
detach_first end_idx null = absent
detach_first end_idx (node l i c r) =
    let deeper = in_left_child (detach_first end_idx l) i c r in
    if i == end_idx then only_child i c l r else if ltb i end_idx then error else deeper

unfoldable pub detach_last : ℕ → Tree → Detached
detach_last start_idx null = absent
detach_last start_idx (node l i c r) =
    let deeper = in_right_child l i c (detach_last start_idx r) in
    if i + c == start_idx
    then only_child i c r l
    else if ltb start_idx (i + c)
    then error
    else deeper

pub data MergeResult : Type 0 where
  merge_success : Tree → MergeResult
  merge_miss : MergeResult
  merge_error : MergeResult

-- The node after `MergeToRight`, and after `MergeToLeft`.
abbrev pub grow_right : Tree → ℕ → ℕ → Tree → Detached → MergeResult
grow_right l i c r absent = merge_success (node l i c r)
grow_right l i c r (detached j d r') = merge_success (node l i (c + d) r')
grow_right l i c r error = merge_error

abbrev pub grow_left : Tree → ℕ → ℕ → Tree → Detached → MergeResult
grow_left l i c r absent = merge_success (node l i c r)
grow_left l i c r (detached j d l') = merge_success (node l' j (c + d) r)
grow_left l i c r error = merge_error

unfoldable pub merge_at : ℕ → ℕ → Tree → ℕ → ℕ → Tree → MergeResult
unfolding detach_first detach_last
merge_at idx num l i c r =
    if idx == i + c
    then grow_right l i (c + num) r (detach_first (idx + num) r)
    else if idx + num == i
    then grow_left l idx (c + num) r (detach_last idx l)
    else merge_miss

-- A slot on the stack: the rest of its node around the slot of the child that is entered.
pub data Frame : Type 0 where
  on_left : ℕ → ℕ → Tree → Frame
  on_right : Tree → ℕ → ℕ → Frame

-- The first loop of `MergeInsertInternal`. `none` is `false`.
unfoldable pub descend : ℕ → ℕ → Tree → List Frame → Option (Tree × List Frame)
unfolding merge_at
descend idx num null path = some (node null idx num null, path)
descend idx num (node l i c r) path = elim (merge_at idx num l i c r) [
  | merge_success t ↦ some (t, path)
  | merge_error ↦ none
  | merge_miss ↦ elim (ltb (idx + num) i) [
    | true ↦ descend idx num l (on_left i c r ∷ path)
    | false ↦ elim (ltb (i + c) idx) [
      | true ↦ descend idx num r (on_right l i c ∷ path)
      | false ↦ none
    ]
  ]
]

abbrev pub fill : Frame → Tree → Tree
fill (on_left i c r) t = node t i c r
fill (on_right l i c) t = node l i c t

unfoldable pub plug : List Frame → Tree → Tree
plug [] t = t
plug (f ∷ path) t = plug path (fill f t)

abbrev pub rotate_left_child : Tree → ℕ → ℕ → Tree → Tree
rotate_left_child null i c r = node null i c r
rotate_left_child (node ll li lc lr) i c r = node ll li lc (node lr i c r)

abbrev pub rotate_right_child : Tree → ℕ → ℕ → Tree → Tree
rotate_right_child l i c null = node l i c null
rotate_right_child l i c (node rl ri rc rr) = node (node l i c rl) ri rc rr

-- What one round of the second loop does at a node: it goes on above a rotated node, ends the
-- loop, or ends the call with `false`.
pub data Round : Type 0 where
  rotated : Tree → Round
  ends : Round
  refuses : Round

unfoldable pub round : ℕ → ℕ → Tree → Round
round idx num null = refuses
round idx num (node l i c r) =
    if ltb (idx + num) i
    then (if ltb c (count_of l) then rotated (rotate_left_child l i c r) else ends)
    else if ltb (i + c) idx
    then (if ltb c (count_of r) then rotated (rotate_right_child l i c r) else ends)
    else refuses

-- The second loop of `MergeInsertInternal`, which pops the stack.
unfoldable pub ascend : ℕ → ℕ → List Frame → Tree → Option Tree
unfolding round plug
ascend idx num [] t = some t
ascend idx num (f ∷ path) t = elim (round idx num (fill f t)) [
  | rotated u ↦ ascend idx num path u
  | ends ↦ some (plug path (fill f t))
  | refuses ↦ none
]

-- What `MergeInsert` returns: `true` with the new tree, or `false`, or that it ends by an exception
-- where a sum leaves the 32 bits.
pub data Inserted : Type 0 where
  inserted : CartesianTree → Inserted
  rejected : Inserted
  overflow : Inserted

abbrev pub with_total : ℕ → Option Tree → Inserted
with_total total none = rejected
with_total total (some u) =
    if leb (2 ^ 32) total then overflow else inserted (record { total_count = total; root = u })

abbrev pub ascend_from : ℕ → ℕ → Option (Tree × List Frame) → Option Tree
ascend_from idx num none = none
ascend_from idx num (some (t, path)) = ascend idx num path t

-- The sums of the loops are at most `idx + num` or the end of a run.
unfoldable pub merge_insert_internal : ℕ → ℕ → CartesianTree → Inserted
unfolding descend ascend
merge_insert_internal idx num t =
    if leb (2 ^ 32) (idx + num)
    then overflow
    else with_total (t.total_count + num) (ascend_from idx num (descend idx num t.root []))

unfoldable pub merge_insert : ℕ → ℕ → CartesianTree → Inserted
merge_insert idx num t = elim t.root [
  | null ↦ with_total (t.total_count + num) (some (node null idx num null))
  | node l i c r ↦ if num == 0 then rejected else merge_insert_internal idx num t
]
