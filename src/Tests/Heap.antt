-- ===== src/Tests/Heap.antt =====
-- Runs of the tree of free units: four runs, of which two fit best.
use cjcj_runtime.Base.{List, map, length, some, ◌≤◌, ℕ, ◌≡◌, ◌⊎◌, ◌<◌, refl, inl, inr, arith, All}
use cjcj_runtime.Heap.CartesianTree.{
  null, node, runs, CartesianTree, refused, taken, take_units_low_addr, take_at, at_slot, shrink,
  size, find_best_fit_low_addr, find_loop, improve, push, remove_zero_node, lower_non_zero_node,
  lower_improper_node_once, is_proper_node,
}
use cjcj_runtime.Heap.CartesianTree.Take.{IsFree}
use cjcj_runtime.Heap.CartesianTree.Take.Lowest.{BestFit, take_units_low_addr-BestFit}
use cjcj_runtime.Heap.CartesianTree.Take.Cut.{Cut}
use cjcj_runtime.Heap.CartesianTree.Levels.{Queued, take_units, clear_tree, get_node_count}
use cjcj_runtime.Heap.CartesianTree.Levels.Fit.{take_units-Cut}
use cjcj_runtime.Heap.CartesianTree.Levels.Visit.{occurs, run_of, clear_tree-get_node_count}
use cjcj_runtime.Heap.CartesianTree.Roundtrip.{take_units_low_addr-merge_insert}
use cjcj_runtime.Heap.CartesianTree.Insert.{
  inserted, merge_insert, merge_insert_internal, merge_at, descend, ascend, round, detach_first,
  plug,
}
use cjcj_runtime.Heap.CartesianTree.Insert.Added.{AreApart}
use cjcj_runtime.Heap.CartesianTree.Insert.Give.{Given, merge_insert-Given}

-- 5 units from 10, 3 from 20, 9 from 30 and 3 from 50.
abbrev tree : CartesianTree
tree = record {
  total_count = 20;
  root = node (node null 10 5 (node null 20 3 null)) 30 9 (node null 50 3 null);
}

tree-IsFree : IsFree tree
unfolding runs
tree-IsFree = record {
  heap = ground arith;
  ascending = ground arith;
  in_range = ground arith;
  positive = ground arith;
  total = refl;
}

-- The search takes the run at 20, and nothing of the run at 50.
lowest :
    take_units_low_addr 2 tree
    ≡ taken 20 (record {
      total_count = 18;
      root = node (node null 10 5 (node null 22 1 null)) 30 9 (node null 50 3 null);
    })
unfolding take_units_low_addr take_at at_slot shrink size find_best_fit_low_addr find_loop improve
    push remove_zero_node lower_non_zero_node lower_improper_node_once is_proper_node
lowest = refl

-- The run at the root is used up: its children move up.
gone :
    take_units_low_addr 9 tree
    ≡ taken 30
        (record { total_count = 11; root = node null 10 5 (node (node null 20 3 null) 50 3 null) })
unfolding take_units_low_addr take_at at_slot shrink size find_best_fit_low_addr find_loop improve
    push remove_zero_node lower_non_zero_node lower_improper_node_once is_proper_node
gone = refl

take_units_low_addr-BestFit_example :
    BestFit 2 tree (take_units_low_addr 2 tree)
    ⊎ ((take_units_low_addr 2 tree ≡ refused) × All (λ (x : ℕ × ℕ). x.1 < 2) (runs tree.root))
take_units_low_addr-BestFit_example = take_units_low_addr-BestFit 2 tree (omega arith) tree-IsFree

-- The units between the runs at 10 and 20 join them to one, which becomes the root.
joined :
    merge_insert 15 5 tree
    ≡ inserted
        (record { total_count = 25; root = node null 10 13 (node null 30 9 (node null 50 3 null)) })
unfolding merge_insert merge_insert_internal merge_at descend ascend round detach_first plug
joined = refl

all_apart : All (AreApart 15 5) (runs tree.root)
unfolding runs
all_apart = (inl (omega arith), (inr (omega arith), (inr (omega arith), ((inr (omega arith)), tt))))

merge_insert-Given_example : Given 15 5 tree (merge_insert 15 5 tree)
merge_insert-Given_example =
    merge_insert-Given 15 5 tree (omega arith) (omega arith) all_apart tree-IsFree

-- The run at 30 is taken as a whole and given back.
take_units_low_addr-merge_insert_example :
    (w : CartesianTree) × (merge_insert 30 9
        (record { total_count = 11; root = node null 10 5 (node (node null 20 3 null) 50 3 null) })
      ≡ inserted w)
    × (runs w.root ≡ runs tree.root)
    × (w.total_count ≡ 20)
take_units_low_addr-merge_insert_example =
    take_units_low_addr-merge_insert 9 tree
      (record { total_count = 11; root = node null 10 5 (node (node null 20 3 null) 50 3 null) }) 30
      (omega arith) tree-IsFree gone

take_units-Cut_example :
    ((i c : ℕ) × (2 ≤ c) × Cut 2 tree i c (take_units 2 tree))
    ⊎ ((take_units 2 tree ≡ refused) × All (λ (x : ℕ × ℕ). x.1 < 2) (runs tree.root))
take_units-Cut_example = take_units-Cut 2 tree (omega arith) tree-IsFree

-- The last node of the lowest level.
last_of_level :
    take_units 2 tree
    ≡ taken 20 (record {
      total_count = 18;
      root = node (node null 10 5 (node null 22 1 null)) 30 9 (node null 50 3 null);
    })
unfolding take_units size take_at at_slot shrink
last_of_level = refl

clear_tree-get_node_count_example :
    (nodes : List Queued) × (clear_tree tree
      ≡ some (nodes, record { total_count = 0; root = null }))
    × (get_node_count tree ≡ some (length nodes))
    × ((j d : ℕ) → occurs j d (map run_of nodes) ≡ occurs j d (runs tree.root))
clear_tree-get_node_count_example = clear_tree-get_node_count tree

four_nodes : get_node_count tree ≡ some 4
unfolding get_node_count size
four_nodes = refl
