-- ===== src/Heap/FreeRegionManager/System/Sound.antt =====
-- FreeRegionManager.cj: where the units of the heap are while threads take and give back regions.
use mathlib.Core.Path.{subst}
use cjcj_runtime.Base.{ℕ, ◌+◌, ◌^◌, ◌<◌, ◌≤◌, ◌≡◌, ◌≢◌, refl, ap, ◌∙◌, List, ◌∷◌, ◌++◌, arith, All}
use cjcj_runtime.Heap.CartesianTree.{runs, CartesianTree, failed, take_units_low_addr}
use cjcj_runtime.Heap.CartesianTree.Order.{All-split, All-append}
use cjcj_runtime.Heap.CartesianTree.Take.{IsFree}
use cjcj_runtime.Heap.FreeRegionManager.{
  FreeRegionManager, done, add_garbage_units, add_release_units, with_dirty, with_released,
}
use cjcj_runtime.Heap.FreeRegionManager.Covers.{holds, covers, covers-append}
use cjcj_runtime.Heap.FreeRegionManager.Moves.{
  Left, take_units_low_addr-Left, take_units_low_addr-failed, merge_insert-Entered,
  release_root_node-some,
}
use cjcj_runtime.Heap.FreeRegionManager.System.{
  System, Step, takes_dirty, takes_released, adds_garbage, adds_release, releases_root, Reach, here,
  next,
}

-- In how many places a unit is.
abbrev pub places : ℕ → System → ℕ
places k s =
    covers k (runs s.manager.dirty_unit_tree.root)
    + (covers k (runs s.manager.released_unit_tree.root) + covers k s.held)

abbrev IsRun : ℕ × ℕ → Type 0
IsRun x = (0 < x.1) × (x.0 + x.1 < 2 ^ 32)

pub record IsSound (s : System) : Type 0 where
  pub dirty : IsFree s.manager.dirty_unit_tree
  pub released : IsFree s.manager.released_unit_tree
  pub held_runs : All IsRun s.held
  pub once : (k : ℕ) → places k s ≤ 1

-- A run that a thread holds, and what else it holds.
module _ (held a b : List (ℕ × ℕ)) (i num : ℕ) (e : held ≡ a ++ (i, num) ∷ b) where
  covers-held : (k : ℕ) → covers k held ≡ covers k (a ++ b) + holds k i num
  covers-held k =
      let x = ap (covers k) e ∙ covers-append k a ((i, num) ∷ b) in
      omega (arith, x, covers-append k a b)

  held-IsRun : All IsRun held → All IsRun (a ++ b) × IsRun (i, num)
  held-IsRun all =
      let (x, (y, z)) = All-split IsRun a ((i, num) ∷ b) (subst (All IsRun) e all) in
      (All-append IsRun a b x z, y)

-- A run moves between the trees and the threads.
module _ (s : System) (sound : IsSound s) where
  open s use {manager, held}

  abbrev Kept : System → Type 0
  Kept t = IsSound t × ((k : ℕ) → places k t ≡ places k s)

  taken-dirty :
      (i num : ℕ) (t : CartesianTree)
      → Left manager.dirty_unit_tree i num t
      → Kept (record { manager = record manager { dirty_unit_tree = t }; held = (i, num) ∷ held })
  taken-dirty i num t l = (
    record {
      dirty = l.free;
      released = sound.released;
      held_runs = ((l.positive, l.in_range), sound.held_runs);
      once = λ k. omega (arith, l.units k, sound.once k);
    },
    λ k. omega (arith, l.units k),
  )

  taken-released :
      (i num : ℕ) (t : CartesianTree)
      → Left manager.released_unit_tree i num t
      → Kept
          (record { manager = record manager { released_unit_tree = t }; held = (i, num) ∷ held })
  taken-released i num t l = (
    record {
      dirty = sound.dirty;
      released = l.free;
      held_runs = ((l.positive, l.in_range), sound.held_runs);
      once = λ k. omega (arith, l.units k, sound.once k);
    },
    λ k. omega (arith, l.units k),
  )

  module _ (i num : ℕ) (a b : List (ℕ × ℕ)) (e : held ≡ a ++ (i, num) ∷ b) where
    given-dirty :
        (m : FreeRegionManager) × (add_garbage_units i num manager ≡ done m)
        × Kept (record { manager = m; held = a ++ b })
    unfolding add_garbage_units
    given-dirty =
        let (others, (positive, in_range)) = held-IsRun held a b i num e sound.held_runs in
        let (u, f, n) =
          merge_insert-Entered i num manager.dirty_unit_tree positive in_range
            (λ k. omega (arith, sound.once k, covers-held held a b i num e k)) sound.dirty in
        (
          record manager { dirty_unit_tree = u },
          ap (with_dirty manager) f,
          (
            record {
              dirty = n.free;
              released = sound.released;
              held_runs = others;
              once = λ k. omega (arith, n.units k, sound.once k, covers-held held a b i num e k);
            },
            λ k. omega (arith, n.units k, covers-held held a b i num e k),
          ),
        )

    given-released :
        (m : FreeRegionManager) × (add_release_units i num manager ≡ done m)
        × Kept (record { manager = m; held = a ++ b })
    unfolding add_release_units
    given-released =
        let (others, (positive, in_range)) = held-IsRun held a b i num e sound.held_runs in
        let (u, f, n) =
          merge_insert-Entered i num manager.released_unit_tree positive in_range
            (λ k. omega (arith, sound.once k, covers-held held a b i num e k)) sound.released in
        (
          record manager { released_unit_tree = u },
          ap (with_released manager) f,
          (
            record {
              dirty = sound.dirty;
              released = n.free;
              held_runs = others;
              once = λ k. omega (arith, n.units k, sound.once k, covers-held held a b i num e k);
            },
            λ k. omega (arith, n.units k, covers-held held a b i num e k),
          ),
        )

-- One step keeps the invariant and the number of places of each unit.
Step-IsSound : {s t : System} → Step s t → (sound : IsSound s) → Kept s sound t
Step-IsSound {s} (takes_dirty num i t e) sound =
    taken-dirty s sound i num t
      (take_units_low_addr-Left num s.manager.dirty_unit_tree t i sound.dirty e)
Step-IsSound {s} (takes_released num i t e) sound =
    taken-released s sound i num t
      (take_units_low_addr-Left num s.manager.released_unit_tree t i sound.released e)
Step-IsSound {s} (adds_garbage i num a b m e h) sound =
    let (m', r, kept) = given-dirty s sound i num a b e in
    let same : m' ≡ m = cc (r, h) in
    subst (λ (x : FreeRegionManager). Kept s sound (record { manager = x; held = a ++ b })) same
      kept
Step-IsSound {s} (adds_release i num a b m e h) sound =
    let (m', r, kept) = given-released s sound i num a b e in
    let same : m' ≡ m = cc (r, h) in
    subst (λ (x : FreeRegionManager). Kept s sound (record { manager = x; held = a ++ b })) same
      kept
Step-IsSound {s} (releases_root l i c r t e h) sound =
    let d = s.manager.dirty_unit_tree in
    taken-dirty s sound i c t
      (release_root_node-some d.total_count d.root l i c r t sound.dirty e h)

-- In every interleaving of threads that take regions, give regions back and release the greatest
-- dirty run, from a state in which no unit is in two places: each unit stays in exactly as many
-- places as at the start, which are the dirty tree, the released tree and the runs that threads hold,
-- so none is lost and none is handed out twice; and both trees keep their invariant.
pub Reach-IsSound :
    {s t : System} → IsSound s → Reach s t → IsSound t × ((k : ℕ) → places k t ≡ places k s)
Reach-IsSound sound here = (sound, λ k. refl)
Reach-IsSound {s} sound (next {t} {u} r st) =
    let (x, f) = Reach-IsSound sound r in let (y, g) = Step-IsSound st x in (y, λ k. g k ∙ f k)

-- From a state in which both trees keep their invariant, no unit is in two places, and each run that
-- is held has at least one unit and ends below 2 ^ 32, in every state that the threads reach, a run
-- that a thread holds can be given back to either tree: `AddGarbageUnits` and `AddReleaseUnits` return, so the `RtFatal` behind
-- `MergeInsert` is never reached.
pub Reach-returns :
    {s t : System} (i num : ℕ) (a b : List (ℕ × ℕ))
    → IsSound s
    → Reach s t
    → t.held ≡ a ++ (i, num) ∷ b
    → ((m : FreeRegionManager) × (add_garbage_units i num t.manager ≡ done m))
      × ((m : FreeRegionManager) × (add_release_units i num t.manager ≡ done m))
Reach-returns {s} {t} i num a b start r e =
    let (sound, same) = Reach-IsSound start r in
    let (x, p, _) = given-dirty t sound i num a b e in
    let (y, q, _) = given-released t sound i num a b e in ((x, p), (y, q))

-- From the same states, in every state that the threads reach, a thread that asks either tree for any
-- number of units is served or refused: `TakeUnitsLowAddr` ends and never fails.
pub Reach-takes :
    {s t : System} (n : ℕ)
    → IsSound s
    → Reach s t
    → (take_units_low_addr n t.manager.dirty_unit_tree ≢ failed)
      × (take_units_low_addr n t.manager.released_unit_tree ≢ failed)
Reach-takes {s} {t} n start r =
    let (sound, same) = Reach-IsSound start r in
    (
      take_units_low_addr-failed n t.manager.dirty_unit_tree sound.dirty,
      take_units_low_addr-failed n t.manager.released_unit_tree sound.released,
    )
