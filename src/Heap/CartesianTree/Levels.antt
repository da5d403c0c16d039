-- ===== src/Heap/CartesianTree/Levels.antt =====
-- CartesianTree.cj, lines 116-194, 257-271, 312-321, 343-346, 685-717 and 802-819: the iterators, which
-- visit_nodes the tree level by level from the right, and what uses them.
pub mod Fit
pub mod Visit
use cjcj_runtime.Base.{
  ℕ, zero, suc, ◌+◌, ◌==◌, true, false, ltb, if◌then◌else◌, Option, none, some, List, [], ◌∷◌, ◌++◌,
}
use cjcj_runtime.Heap.CartesianTree.{
  Tree, null, node, Side, left, right, size, Candidate, CartesianTree, Taken, refused, failed,
  take_at,
}

-- A slot in the queue of an iterator, with the node that it holds.
pub record Queued : Type 0 where
  pub slot : List Side
  pub left_child : Tree
  pub index : ℕ
  pub count : ℕ
  pub right_child : Tree

-- A slot that holds a node is pushed behind the others.
unfoldable pub enqueue : List Side → Tree → List Queued → List Queued
enqueue s null queue = queue
enqueue s (node l i c r) queue =
    queue ++ record { slot = s; left_child = l; index = i; count = c; right_child = r } ∷ []

-- The queue behind its front `e` after `Next`: the right child is pushed before the left.
unfoldable pub children : Queued → List Queued → List Queued
unfolding enqueue
children e queue =
    enqueue (e.slot ++ left ∷ []) e.left_child (enqueue (e.slot ++ right ∷ []) e.right_child queue)

abbrev pub candidate_of : Queued → Candidate
candidate_of e = record { slot = e.slot; index = e.index; count = e.count }

-- The loop of `TakeUnitsImpl`: the last slot before a node with too few units. `none` is out of fuel.
unfoldable pub last_fit : ℕ → ℕ → Candidate → List Queued → Option Candidate
unfolding children
last_fit zero num b queue = none
last_fit (suc n) num b [] = some b
last_fit (suc n) num b (e ∷ queue) = elim (ltb e.count num) [
  | true ↦ some b
  | false ↦ last_fit n num (candidate_of e) (children e queue)
]

abbrev pub take_last : ℕ → CartesianTree → Option Candidate → Taken
take_last num t none = failed
take_last num t (some b) = take_at num t b

abbrev pub root_queued : Tree → ℕ → ℕ → Tree → Queued
root_queued l i c r = record { slot = []; left_child = l; index = i; count = c; right_child = r }

unfoldable pub take_units_impl : ℕ → CartesianTree → Taken
unfolding last_fit
take_units_impl num t = elim t.root [
  | null ↦ refused
  | node l i c r ↦
      let e = root_queued l i c r in
      if ltb c num
      then refused
      else take_last num t (last_fit (suc (size t.root)) num (candidate_of e) (children e []))
]

-- `TakeUnits`.
unfoldable pub take_units : ℕ → CartesianTree → Taken
unfolding take_units_impl
take_units num t = if num == 0 then refused else take_units_impl num t

-- `AllocateLowestAddressFromNode` at a slot that holds a node.
unfoldable pub allocate_lowest_address_from_node : ℕ → CartesianTree → Candidate → Taken
allocate_lowest_address_from_node num t b = if ltb b.count num then refused else take_at num t b

-- The nodes in the order of `Iterator`, which `ClearTree` deletes one after the other.
unfoldable pub visit_nodes : ℕ → List Queued → Option (List Queued)
unfolding children
visit_nodes zero queue = none
visit_nodes (suc n) [] = some []
visit_nodes (suc n) (e ∷ queue) = elim (visit_nodes n (children e queue)) [
  | none ↦ none
  | some rest ↦ some (e ∷ rest)
]

-- `GetNodeCount`, with the number that the loop has counted so far.
unfoldable pub count_nodes : ℕ → ℕ → List Queued → Option ℕ
unfolding children
count_nodes zero k queue = none
count_nodes (suc n) k [] = some k
count_nodes (suc n) k (e ∷ queue) = count_nodes n (k + 1) (children e queue)

unfoldable pub get_node_count : CartesianTree → Option ℕ
unfolding count_nodes enqueue
get_node_count t = count_nodes (suc (size t.root)) 0 (enqueue [] t.root [])

-- `ClearTree`: the nodes that it deletes, in order, and the tree that it leaves.
abbrev pub cleared : Option (List Queued) → Option (List Queued × CartesianTree)
cleared none = none
cleared (some nodes) = some (nodes, record { total_count = 0; root = null })

unfoldable pub clear_tree : CartesianTree → Option (List Queued × CartesianTree)
unfolding visit_nodes enqueue
clear_tree t = cleared (visit_nodes (suc (size t.root)) (enqueue [] t.root []))
