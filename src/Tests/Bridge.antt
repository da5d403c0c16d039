-- ===== src/Tests/Bridge.antt =====
-- Runs of the bridges: nested scopes of a mutator that is a flag, an address space that hands out
-- consecutive pages, and a history of an allocation buffer.
use cjcj_runtime.Base.{
  ℕ, ◌+◌, ◌≡◌, refl, Bool, true, false, not, ◌==◌, ltb, if◌then◌else◌, List, [], ◌∷◌, Option, none,
  some, arith,
}
use cjcj_runtime.Bridge.Saferegion
use cjcj_runtime.Bridge.Saferegion.{
  Mutator, IsMutator, ThreadType, other_thread, Thread, Scopes, idle, scope, Same, run_balanced,
}
use cjcj_runtime.Bridge.SafepointPages.{
  Prot, map_failed, Mapping, IsMapping, SafepointPageManager, init, destroy, IsReady, init-destroy,
}
use cjcj_runtime.Bridge.AllocBuffer
use cjcj_runtime.Bridge.AllocBuffer.History.{constructed, run-constructed}
use cjcj_runtime.Bridge.AllocBuffer.{Call, pushes, prepares, merges, roots, prepared_load_relaxed}

-- A mutator is whether it is in a safe region.
abbrev flag : Mutator Bool
flag = record {
  in_saferegion = λ s. s;
  enter_saferegion = λ u s. (true, not s);
  leave_saferegion = λ s. (false, s);
}

flag-IsMutator : IsMutator flag
flag-IsMutator = record { enters = λ u s. refl; entered = λ u s. refl; left = λ s. refl }

abbrev thread : Thread Bool
thread = record { thread_type = other_thread; mutator = some false }

abbrev scopes : Scopes
scopes = scope (scope idle idle) (scope idle idle)

run_balanced_example :
    ((u : Thread Bool) × (Saferegion.run flag scopes thread ≡ some u) × Same flag thread u)
    × (Saferegion.inside flag (Saferegion.scope_begin flag thread).0.mutator ≡ some true)
run_balanced_example = run_balanced flag flag-IsMutator scopes thread

-- An address space: how many pages have been mapped, and the protection of each.
record Space : Type 0 where
  count : ℕ
  page : ℕ → Option Prot

abbrev with_page : ℕ → Option Prot → Space → ℕ → Option Prot
with_page a o s b = if b == a then o else s.page b

-- Pages are numbered as they are mapped, and there are 1000 at most.
abbrev mapping : Mapping Space
mapping = record {
  mmap = λ p s.
      if ltb s.count 1000
      then (record { count = s.count + 1; page = with_page s.count (some p) s }, s.count)
      else (s, map_failed);
  munmap = λ a s. (record s { page = with_page a none s }, 0);
  prot_of = λ s a. if ltb a s.count then s.page a else none;
}

mapping-IsMapping : IsMapping mapping
mapping-IsMapping = record {
  fresh = λ p s h. ground arith;
  mapped = λ p s a h. ground arith;
  unmapped = λ s a b p h. ground arith;
}

abbrev space : Space
space = record { count = 5; page = λ a. none }

abbrev pages : SafepointPageManager
pages = record { readable_page = 5; unreadable_page = 6; unreadable_page_for_raw_data = 7 }

made : (init mapping space).1 ≡ some pages
unfolding init
made = refl

init-destroy_example :
    IsReady mapping space (init mapping space).0 pages
    × ((destroy mapping pages (init mapping space).0).1 ≡ false)
    × ((a : ℕ)
        → mapping.prot_of (destroy mapping pages (init mapping space).0).0 a
          ≡ mapping.prot_of space a)
init-destroy_example = init-destroy mapping mapping-IsMapping space pages made

abbrev history : List Call
history = pushes 10 ∷ prepares 70 ∷ merges ∷ pushes 11 ∷ prepares 71 ∷ []

run-constructed_example :
    let s = AllocBuffer.run (constructed (9 ∷ [])) history in
    (roots s ≡ 9 ∷ 10 ∷ 11 ∷ [])
    × (s.accepted ≡ 70 ∷ [])
    × (prepared_load_relaxed s.buffer ≡ 70)
    × ((AllocBuffer.step s merges).work_stack ≡ 9 ∷ 10 ∷ 11 ∷ [])
run-constructed_example = run-constructed (9 ∷ []) history ((ground arith), ((ground arith), tt))
