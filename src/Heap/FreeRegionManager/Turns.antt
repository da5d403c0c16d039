-- ===== src/Heap/FreeRegionManager/Turns.antt =====
-- FreeRegionManager.cj, lines 187-224: the turns of TakeRegion.
use mathlib.Core.Path.{subst}
use cjcj_runtime.Base.{
  ℕ, ◌^◌, ◌<◌, ◌≡◌, ◌⊎◌, refl, sym, List, [], ◌∷◌, arith, All, inl, inr, Bool, true, false, ◌||◌,
  leb, Option, none, some, Bool-cases,
}
use cjcj_runtime.Heap.CartesianTree.{runs, CartesianTree, taken, take_units_low_addr}
use cjcj_runtime.Heap.CartesianTree.Take.{IsFree}
use cjcj_runtime.Heap.CartesianTree.Take.Lowest.{take_units_low_addr-BestFit}
use cjcj_runtime.Heap.FreeRegionManager.{
  Turn, Region, from_dirty, from_released, no_region, waiting, ended, Attempt, again, returns,
  attempt, take_turns, take_region,
}

-- Every run of the tree is too short.
abbrev pub IsShort : ℕ → CartesianTree → Type 0
IsShort num t = All (λ (x : ℕ × ℕ). x.1 < num) (runs t.root)

abbrev pub IsFreeIfSeen : Option CartesianTree → Type 0
IsFreeIfSeen none = Unit
IsFreeIfSeen (some t) = IsFree t

abbrev pub AreFreeTurns : List Turn → Type 0
AreFreeTurns turns = All (λ (x : Turn). IsFreeIfSeen x.dirty × IsFreeIfSeen x.released) turns

-- The tree was found in one of the turns.
abbrev pub IsSeen : (Turn → Option CartesianTree) → CartesianTree → List Turn → Type 0
IsSeen f t [] = ⊥
IsSeen f t (x ∷ turns) = (f x ≡ some t) ⊎ IsSeen f t turns

abbrev pub SeenShort : (Turn → Option CartesianTree) → ℕ → List Turn → Type 0
SeenShort f num turns = (t : CartesianTree) × IsSeen f t turns × IsShort num t

abbrev pub SeenTaken : (Turn → Option CartesianTree) → ℕ → ℕ → CartesianTree → List Turn → Type 0
SeenTaken f num i u turns =
    (t : CartesianTree) × IsSeen f t turns × (take_units_low_addr num t ≡ taken i u)

abbrev pub NeverSeen : (Turn → Option CartesianTree) → List Turn → Type 0
NeverSeen f turns = All (λ (x : Turn). f x ≡ none) turns

abbrev pub dirty_of : Turn → Option CartesianTree
dirty_of x = x.dirty

abbrev pub released_of : Turn → Option CartesianTree
released_of x = x.released

-- Why the call does what it does, with the flags that are left.
abbrev ExplainsFrom : ℕ → Bool → Bool → List Turn → Region → Type 0
ExplainsFrom num d r turns (from_dirty i u) = SeenTaken dirty_of num i u turns
ExplainsFrom num d r turns (from_released i u) = SeenTaken released_of num i u turns
ExplainsFrom num d r turns no_region =
    ((d ≡ false) ⊎ SeenShort dirty_of num turns) × ((r ≡ false) ⊎ SeenShort released_of num turns)
ExplainsFrom num d r turns waiting =
    ((d ≡ true) × NeverSeen dirty_of turns) ⊎ ((r ≡ true) × NeverSeen released_of turns)
ExplainsFrom num d r turns ended = ⊥

abbrev pub Explains : ℕ → List Turn → Region → Type 0
Explains num turns (from_dirty i u) = SeenTaken dirty_of num i u turns
Explains num turns (from_released i u) = SeenTaken released_of num i u turns
Explains num turns no_region = SeenShort dirty_of num turns × SeenShort released_of num turns
Explains num turns waiting = NeverSeen dirty_of turns ⊎ NeverSeen released_of turns
Explains num turns ended = ⊥

-- What an attempt at a tree finds.
data Tries (num : ℕ) (give : ℕ → CartesianTree → Region) (try : Bool) (o : Option CartesianTree)
    : Attempt → Type 0 where
  busy : o ≡ none → Tries num give try o (again try)
  skipped : try ≡ false → Tries num give try o (again false)
  short : (t : CartesianTree) → o ≡ some t → IsShort num t → Tries num give try o (again false)
  served :
      (t u : CartesianTree) (i : ℕ)
      → o ≡ some t
      → take_units_low_addr num t ≡ taken i u
      → Tries num give try o (returns (give i u))

attempt-Tries :
    (num : ℕ) (give : ℕ → CartesianTree → Region) (try : Bool) (o : Option CartesianTree)
    → 0 < num
    → IsFreeIfSeen o
    → Tries num give try o (attempt give try num o)
unfolding attempt
attempt-Tries num give try none positive free = busy refl
attempt-Tries num give false (some t) positive free = skipped refl
attempt-Tries num give true (some t) positive free =
    elim (take_units_low_addr-BestFit num t positive free) [
      | inl b ↦ rw (b.returned, attempt) (served t b.after b.index refl b.returned)
      | inr (r, all) ↦ rw (r, attempt) (short t refl all)
    ]

-- A round that leaves the flag of a tree, seen from that tree.
module _ (num : ℕ) (f : Turn → Option CartesianTree) (give : ℕ → CartesianTree → Region) (x : Turn)
    (turns : List Turn) where
  SeenShort-next :
      {try b : Bool}
      → Tries num give try (f x) (again b)
      → (b ≡ false) ⊎ SeenShort f num turns
      → (try ≡ false) ⊎ SeenShort f num (x ∷ turns)
  SeenShort-next (busy e) (inl h) = inl h
  SeenShort-next (busy e) (inr (t, seen, all)) = inr (t, inr seen, all)
  SeenShort-next (skipped e) p = inl e
  SeenShort-next (short t e all) p = inr (t, inl e, all)

  NeverSeen-next :
      {try b : Bool}
      → Tries num give try (f x) (again b)
      → b ≡ true
      → NeverSeen f turns
      → (try ≡ true) × NeverSeen f (x ∷ turns)
  NeverSeen-next (busy e) h never = (h, (e, never))
  NeverSeen-next (skipped e) h never = absurd (cc)
  NeverSeen-next (short t e all) h never = absurd (cc)

-- The rest of the turns explains the call, after the first has left the flags `d'` and `r'`.
module _ (num : ℕ) (d r d' r' : Bool) (x : Turn) (turns : List Turn)
    (a : Tries num from_dirty d x.dirty (again d'))
    (b : Tries num from_released r x.released (again r')) where
  ExplainsFrom-next :
      (g : Region) → ExplainsFrom num d' r' turns g → ExplainsFrom num d r (x ∷ turns) g
  ExplainsFrom-next (from_dirty i u) (t, seen, e) = (t, inr seen, e)
  ExplainsFrom-next (from_released i u) (t, seen, e) = (t, inr seen, e)
  ExplainsFrom-next no_region (p, q) = (
    SeenShort-next num dirty_of from_dirty x turns a p,
    SeenShort-next num released_of from_released x turns b q,
  )
  ExplainsFrom-next waiting (inl (h, never)) =
      inl (NeverSeen-next num dirty_of from_dirty x turns a h never)
  ExplainsFrom-next waiting (inr (h, never)) =
      inr (NeverSeen-next num released_of from_released x turns b h never)
  ExplainsFrom-next ended p = absurd p

-- The round after the attempt at the dirty tree, and after the one at the released tree.
abbrev after_released : ℕ → Bool → List Turn → Attempt → Region
after_released num d turns (returns g) = g
after_released num d turns (again r) = take_turns num d r turns

abbrev after_dirty : ℕ → List Turn → Attempt → Attempt → Region
after_dirty num turns (returns g) second = g
after_dirty num turns (again d) second = after_released num d turns second

take_turns-turn :
    (num : ℕ) (d r : Bool) (x : Turn) (turns : List Turn)
    → d || r ≡ true
    → take_turns num d r (x ∷ turns)
      ≡ after_dirty num turns
          (attempt from_dirty d num x.dirty)
          (attempt from_released r num x.released)
unfolding take_turns
take_turns-turn num d r x turns h = ground (arith, h)

module _ (num : ℕ) (positive : 0 < num) where
  turn-Explains :
      (d r : Bool) (x : Turn) (turns : List Turn)
      → ((d' r' : Bool) → ExplainsFrom num d' r' turns (take_turns num d' r' turns))
      → (first second : Attempt) → Tries num from_dirty d x.dirty first
      → Tries num from_released r x.released second
      → ExplainsFrom num d r (x ∷ turns) (after_dirty num turns first second)
  turn-Explains d r x turns ih (again d') (again r') a b =
      ExplainsFrom-next num d r d' r' x turns a b (take_turns num d' r' turns) (ih d' r')
  turn-Explains d r x turns ih (again d') (returns g) a (served t u i e h) = (t, inl e, h)
  turn-Explains d r x turns ih (returns g) second (served t u i e h) b = (t, inl e, h)

  take_turns-Explains :
      (d r : Bool) (turns : List Turn)
      → AreFreeTurns turns
      → ExplainsFrom num d r turns (take_turns num d r turns)
  unfolding take_turns
  take_turns-Explains false false [] free = (inl refl, inl refl)
  take_turns-Explains false true [] free = inr (refl, tt)
  take_turns-Explains true r [] free = inl (refl, tt)
  take_turns-Explains d r (x ∷ turns) ((p, q), free) = elim (Bool-cases (d || r)) [
    | inl more ↦
        subst (ExplainsFrom num d r (x ∷ turns)) (sym (take_turns-turn num d r x turns more)) (
          turn-Explains d r x turns (λ d' r'. take_turns-Explains d' r' turns free)
            (attempt from_dirty d num x.dirty) (attempt from_released r num x.released)
            (attempt-Tries num from_dirty d x.dirty positive p)
            (attempt-Tries num from_released r x.released positive q))
    | inr over ↦
        let e : take_turns num d r (x ∷ turns) ≡ no_region = ground (arith, over) in
        let f : d ≡ false = ground (arith, over) in
        let g : r ≡ false = ground (arith, over) in
        subst (ExplainsFrom num d r (x ∷ turns)) (sym e) (inl f, inl g)
  ]

ExplainsFrom-all :
    (num : ℕ) (turns : List Turn) (g : Region)
    → ExplainsFrom num true true turns g
    → Explains num turns g
ExplainsFrom-all num turns (from_dirty i u) h = h
ExplainsFrom-all num turns (from_released i u) h = h
ExplainsFrom-all num turns no_region (inl e, q) = absurd (cc)
ExplainsFrom-all num turns no_region (inr p, inl e) = absurd (cc)
ExplainsFrom-all num turns no_region (inr p, inr q) = (p, q)
ExplainsFrom-all num turns waiting (inl (e, h)) = inl h
ExplainsFrom-all num turns waiting (inr (e, h)) = inr h
ExplainsFrom-all num turns ended h = absurd h

-- `TakeRegion` of a number of units from 1 below 2 ^ 32, whatever the try-locks return and however
-- other threads change the trees between its turns, as long as each tree that it finds keeps its
-- invariant: a region that it returns is what one of the trees gave under the mutex; it returns no
-- region only after it has found, under each of the two mutexes, a tree in which every run is too
-- short; it goes on waiting only for a tree whose mutex it has never got; and no exception ends it.
pub take_region-Explains :
    (num : ℕ) (turns : List Turn)
    → 0 < num
    → num < 2 ^ 32
    → AreFreeTurns turns
    → Explains num turns (take_region num turns)
unfolding take_region
take_region-Explains num turns positive small free =
    let fits : leb (2 ^ 32) num ≡ false = ground (arith, small) in
    rw (fits, take_region)
      (ExplainsFrom-all num turns (take_turns num true true turns)
        (take_turns-Explains num positive true true turns free))
