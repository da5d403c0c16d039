-- ===== src/Heap/CartesianTree/Levels/Visit.antt =====
-- CartesianTree.cj, lines 116-155, 257-271 and 343-346: the nodes that the iterator visits.
use cjcj_runtime.Base.{
  ℕ, zero, suc, ◌+◌, ◌<◌, ◌≡◌, refl, List, [], ◌∷◌, ◌++◌, arith, some, ◌==◌, ◌&&◌, if◌then◌else◌,
  map, length,
}
use cjcj_runtime.Heap.CartesianTree.{Tree, null, node, Side, left, right, runs, size, CartesianTree}
use cjcj_runtime.Heap.CartesianTree.Levels.{
  Queued, enqueue, children, visit_nodes, clear_tree, count_nodes, get_node_count,
}
use cjcj_runtime.Heap.CartesianTree.Levels.Fit.{weight, weight-enqueue, weight-children}

-- How often a run is in a list.
abbrev pub occurs : ℕ → ℕ → List (ℕ × ℕ) → ℕ
occurs j d [] = 0
occurs j d ((i, c) ∷ rs) = (if i == j && c == d then 1 else 0) + occurs j d rs

abbrev pub run_of : Queued → ℕ × ℕ
run_of e = (e.index, e.count)

occurs-append : (j d : ℕ) (a b : List (ℕ × ℕ)) → occurs j d (a ++ b) ≡ occurs j d a + occurs j d b
occurs-append j d [] b = omega arith
occurs-append j d ((i, c) ∷ a) b = omega (arith, occurs-append j d a b)

module _ (j d : ℕ) where
  -- How often the run is in what hangs in the queue.
  abbrev waiting : List Queued → ℕ
  waiting [] = 0
  waiting (e ∷ queue) =
      occurs j d (runs e.left_child)
      + (occurs j d (run_of e ∷ []) + occurs j d (runs e.right_child))
      + waiting queue

  waiting-last :
      (e : Queued) (queue : List Queued) → waiting (queue ++ e ∷ []) ≡ waiting (e ∷ queue)
  waiting-last e [] = omega arith
  waiting-last e (x ∷ queue) = omega (arith, waiting-last e queue)

  waiting-enqueue :
      (s : List Side) (t : Tree) (queue : List Queued)
      → waiting (enqueue s t queue) ≡ occurs j d (runs t) + waiting queue
  unfolding enqueue runs
  waiting-enqueue s null queue = omega arith
  waiting-enqueue s (node l i c r) queue =
      let e : Queued = record { slot = s; left_child = l; index = i; count = c; right_child = r } in
      omega (arith, waiting-last e queue, occurs-append j d (runs l) ((i, c) ∷ runs r))

  waiting-children :
      (e : Queued) (queue : List Queued)
      → waiting (children e queue)
        ≡ occurs j d (runs e.left_child) + (occurs j d (runs e.right_child) + waiting queue)
  unfolding children
  waiting-children e queue = omega (
    arith,
    waiting-enqueue (e.slot ++ left ∷ []) e.left_child
        (enqueue (e.slot ++ right ∷ []) e.right_child queue),
    waiting-enqueue (e.slot ++ right ∷ []) e.right_child queue,
  )

-- The loop ends, and visits as many nodes as hang in the queue.
visit_nodes_lem :
    (n : ℕ) (queue : List Queued)
    → weight queue < n
    → (nodes : List Queued) × (visit_nodes n queue ≡ some nodes)
      × (length nodes ≡ weight queue)
      × ((j d : ℕ) → occurs j d (map run_of nodes) ≡ waiting j d queue)
unfolding visit_nodes
visit_nodes_lem zero queue fuel = absurd (omega arith)
visit_nodes_lem (suc n) [] fuel = ([], refl, refl, λ j d. refl)
visit_nodes_lem (suc n) (e ∷ queue) fuel =
    let w = weight-children e queue in
    let (nodes, f, len, same) = visit_nodes_lem n (children e queue) (omega (arith, w, fuel)) in
    (
      e ∷ nodes,
      ground (arith, f),
      omega (arith, len, w),
      λ j d. omega (arith, same j d, waiting-children j d e queue),
    )

count_nodes_lem :
    (n k : ℕ) (queue : List Queued)
    → weight queue < n
    → count_nodes n k queue ≡ some (k + weight queue)
unfolding count_nodes
count_nodes_lem zero k queue fuel = absurd (omega arith)
count_nodes_lem (suc n) k [] fuel = ground arith
count_nodes_lem (suc n) k (e ∷ queue) fuel =
    let w = weight-children e queue in
    let ih = count_nodes_lem n (k + 1) (children e queue) (omega (arith, w, fuel)) in
    let sum : k + 1 + weight (children e queue) ≡ k + weight (e ∷ queue) = omega (arith, w) in
    ground (arith, ih, sum)

-- In any tree the iterator ends. `ClearTree` deletes every node of the tree exactly once, so many of
-- them as `GetNodeCount` says, and leaves an empty tree with the total 0.
pub clear_tree-get_node_count :
    (t : CartesianTree)
    → (nodes : List Queued) × (clear_tree t ≡ some (nodes, record { total_count = 0; root = null }))
      × (get_node_count t ≡ some (length nodes))
      × ((j d : ℕ) → occurs j d (map run_of nodes) ≡ occurs j d (runs t.root))
unfolding clear_tree get_node_count
clear_tree-get_node_count t =
    let w = weight-enqueue [] t.root [] in
    let (nodes, f, len, same) =
      visit_nodes_lem (suc (size t.root)) (enqueue [] t.root []) (omega (arith, w)) in
    let counted = count_nodes_lem (suc (size t.root)) 0 (enqueue [] t.root []) (omega (arith, w)) in
    let sum : 0 + weight (enqueue [] t.root []) ≡ length nodes = omega (arith, len) in
    (
      nodes,
      ground (arith, f),
      ground (arith, counted, sum),
      λ j d. omega (arith, same j d, waiting-enqueue j d [] t.root []),
    )
