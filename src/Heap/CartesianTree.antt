-- ===== src/Heap/CartesianTree.antt =====
-- src/rt.heap.allocator/CartesianTree.cj: the tree of the free units of the heap. A node is a run of
-- `count` units from `index`; the tree is ordered by index and a heap by count. Every node hangs in
-- one slot, so the tree is a tree here, and a slot is the path to it from the root.
pub mod Order
pub mod Lower
pub mod BestFit
pub mod Take
pub mod Insert
pub mod Roundtrip
pub mod Root
pub mod Levels
use cjcj_runtime.Base.{
  ℕ, zero, suc, ◌+◌, ◌-◌, ◌^◌, Bool, true, false, ◌==◌, ◌&&◌, ◌||◌, ltb, leb, if◌then◌else◌, Option,
  none, some, List, [], ◌∷◌, ◌++◌,
}

pub data Tree : Type 0 where
  null : Tree
  node : Tree → ℕ → ℕ → Tree → Tree

pub data Side : Type 0 where
  left right : Side

-- The runs in the order of the tree.
unfoldable pub runs : Tree → List (ℕ × ℕ)
runs null = []
runs (node l i c r) = runs l ++ (i, c) ∷ runs r

unfoldable pub size : Tree → ℕ
size null = 0
size (node l i c r) = suc (size l + size r)

-- The count of a child, 0 for none.
abbrev pub count_of : Tree → ℕ
count_of null = 0
count_of (node l i c r) = c

unfoldable pub is_proper_node : Tree → ℕ → Tree → Bool
is_proper_node l c r = leb (count_of l) c && leb (count_of r) c

-- `RotateLeftChild` and `RotateRightChild` of a node, with what hangs then in its old slot. The node
-- is below the new root, on the side that the constructor names.
pub data Lowered : Type 0 where
  stays : Lowered
  in_left : Tree → ℕ → ℕ → Tree → Lowered
  in_right : Tree → ℕ → ℕ → Tree → Lowered

unfoldable pub lower_improper_node_once : Tree → ℕ → ℕ → Tree → Lowered
lower_improper_node_once null i c null = stays
lower_improper_node_once null i c (node rl ri rc rr) = in_left (node null i c rl) ri rc rr
lower_improper_node_once (node ll li lc lr) i c null = in_right ll li lc (node lr i c null)
lower_improper_node_once (node ll li lc lr) i c (node rl ri rc rr) =
    if leb lc rc
    then in_left (node (node ll li lc lr) i c rl) ri rc rr
    else in_right ll li lc (node lr i c (node rl ri rc rr))

abbrev pub under : Tree → ℕ → ℕ → Option Tree → Option Tree
under l i c none = none
under l i c (some r) = some (node l i c r)

abbrev pub over : Option Tree → ℕ → ℕ → Tree → Option Tree
over none i c r = none
over (some l) i c r = some (node l i c r)

-- `RemoveZeroNode` at the slot of a tree: the node sinks to a leaf, which is taken out. `none` is
-- out of fuel.
unfoldable pub remove_zero_node : ℕ → Tree → Option Tree
unfolding lower_improper_node_once
remove_zero_node zero t = none
remove_zero_node (suc n) null = none
remove_zero_node (suc n) (node l i c r) = elim (lower_improper_node_once l i c r) [
  | stays ↦ some null
  | in_left t j d u ↦ over (remove_zero_node n t) j d u
  | in_right t j d u ↦ under t j d (remove_zero_node n u)
]

-- `LowerNonZeroNode` at the slot of a tree: the node sinks until no child has a greater count.
unfoldable pub lower_non_zero_node : ℕ → Tree → Option Tree
unfolding lower_improper_node_once is_proper_node
lower_non_zero_node zero t = none
lower_non_zero_node (suc n) null = none
lower_non_zero_node (suc n) (node l i c r) = elim (is_proper_node l c r) [
  | true ↦ some (node l i c r)
  | false ↦ elim (lower_improper_node_once l i c r) [
    | stays ↦ lower_non_zero_node n (node l i c r)
    | in_left t j d u ↦ over (lower_non_zero_node n t) j d u
    | in_right t j d u ↦ under t j d (lower_non_zero_node n u)
  ]
]

-- A slot that holds a node, with the index and the count of the node.
pub record Candidate : Type 0 where
  pub slot : List Side
  pub index : ℕ
  pub count : ℕ

-- `best` after the node at `s` has been compared.
unfoldable pub improve : List Side → ℕ → ℕ → Option Candidate → Candidate
improve s i c none = record { slot = s; index = i; count = c }
improve s i c (some b) =
    if ltb c b.count || (c == b.count && ltb i b.index)
    then record { slot = s; index = i; count = c }
    else b

-- A child is pushed if it has enough units.
unfoldable pub push : ℕ → List Side → Tree → List (List Side × Tree) → List (List Side × Tree)
push num s t stack = if leb num (count_of t) then (s, t) ∷ stack else stack

-- The loop of `FindBestFitLowAddrPtr`, for a `num` that is not 0. `none` is out of fuel.
unfoldable pub find_loop :
    ℕ → ℕ → List (List Side × Tree) → Option Candidate → Option (Option Candidate)
unfolding improve push
find_loop zero num stack best = none
find_loop (suc n) num [] best = some best
find_loop (suc n) num ((s, null) ∷ stack) best = find_loop n num stack best
find_loop (suc n) num ((s, node l i c r) ∷ stack) best = elim (ltb c num) [
  | true ↦ find_loop n num stack best
  | false ↦
      let b = improve s i c best in
      elim (b.count == num) [
        | true ↦ find_loop n num (push num (s ++ left ∷ []) l stack) (some b)
        | false ↦
            find_loop n num (push num (s ++ left ∷ []) l (push num (s ++ right ∷ []) r stack))
              (some b)
      ]
]

unfoldable pub find_best_fit_low_addr : ℕ → Tree → Option (Option Candidate)
unfolding find_loop
find_best_fit_low_addr num t = find_loop (suc (size t)) num (push num [] t []) none

-- A change at a slot.
unfoldable pub at_slot : (Tree → Option Tree) → List Side → Tree → Option Tree
at_slot f [] t = f t
at_slot f (s ∷ ss) null = none
at_slot f (left ∷ ss) (node l i c r) = over (at_slot f ss l) i c r
at_slot f (right ∷ ss) (node l i c r) = under l i c (at_slot f ss r)

-- `totalCount` and the tree below `root`.
pub record CartesianTree : Type 0 where
  pub total_count : ℕ
  pub root : Tree

-- What `TakeUnitsLowAddr` returns: the new tree and `idx`, or `false`, or that the process or the
-- thread ends: by `abort`, by an exception where a sum leaves the 32 bits, or through a null slot.
pub data Taken : Type 0 where
  taken : ℕ → CartesianTree → Taken
  refused : Taken
  failed : Taken

-- The node at the slot without its first `num` units, lowered or taken out.
unfoldable pub shrink : ℕ → Tree → Option Tree
unfolding remove_zero_node lower_non_zero_node
shrink num null = none
shrink num (node l i c r) =
    let t = node l (i + num) (c - num) r in
    if c - num == 0 then remove_zero_node (size t) t else lower_non_zero_node (size t) t

abbrev pub to_taken : ℕ → ℕ → Option Tree → Taken
to_taken i total none = failed
to_taken i total (some t) = taken i (record { total_count = total; root = t })

-- `TakeUnitsLowAddrImpl` behind the search.
unfoldable pub take_at : ℕ → CartesianTree → Candidate → Taken
unfolding at_slot
take_at num t b =
    if leb (2 ^ 32) (b.index + num) || ltb t.total_count num
    then failed
    else to_taken b.index (t.total_count - num) (at_slot (shrink num) b.slot t.root)

abbrev pub take_found : ℕ → CartesianTree → Option (Option Candidate) → Taken
take_found num t none = failed
take_found num t (some none) = refused
take_found num t (some (some b)) = take_at num t b

-- `TakeUnitsLowAddr`. Under an empty root the search finds nothing.
unfoldable pub take_units_low_addr : ℕ → CartesianTree → Taken
take_units_low_addr num t =
    if num == 0 then refused else take_found num t (find_best_fit_low_addr num t.root)
