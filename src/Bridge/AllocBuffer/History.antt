-- ===== src/Bridge/AllocBuffer/History.antt =====
-- rt0/AllocBufferNative.cpp, lines 52-94: the histories of a buffer.
use mathlib.Core.List.{append_assoc, append-nil}
use cjcj_runtime.Base.{ℕ, ◌≡◌, ◌≢◌, refl, sym, ◌∙◌, ap, List, [], ◌∷◌, ◌++◌, arith, All}
use cjcj_runtime.Bridge.AllocBuffer.{
  AllocBuffer, prepared_load_relaxed, prepared_compare_exchange_release, push_root, push_all,
  merge_roots, Call, pushes, prepares, merges, State, step, run, pushed, offered, roots,
}

push_all-append : (os ws : List ℕ) → push_all os ws ≡ ws ++ os
unfolding push_all
push_all-append [] ws = sym (append-nil ws)
push_all-append (o ∷ os) ws = push_all-append os (ws ++ o ∷ []) ∙ append_assoc ws (o ∷ []) os

merge_roots-roots :
    (rs ws : List ℕ) (p : ℕ)
    → let (b, w) = merge_roots (record { prepared_region = p; stack_roots = rs }) ws in
      w ++ b.stack_roots ≡ ws ++ rs
unfolding merge_roots
merge_roots-roots [] ws p = refl
merge_roots-roots (r ∷ rs) ws p = append-nil _ ∙ push_all-append (r ∷ rs) ws

step-roots : (s : State) (c : Call) → roots (step s c) ≡ roots s ++ pushed (c ∷ [])
unfolding step push_root prepared_compare_exchange_release
step-roots s (pushes root) = sym (append_assoc s.work_stack s.buffer.stack_roots (root ∷ []))
step-roots s (prepares region) = ground (arith, append-nil (roots s))
step-roots s merges =
    merge_roots-roots s.buffer.stack_roots s.work_stack s.buffer.prepared_region
    ∙ sym (append-nil (roots s))

pushed-cons : (c : Call) (cs : List Call) → pushed (c ∷ []) ++ pushed cs ≡ pushed (c ∷ cs)
pushed-cons (pushes root) cs = refl
pushed-cons c cs = refl

run-roots : (s : State) (cs : List Call) → roots (run s cs) ≡ roots s ++ pushed cs
unfolding run
run-roots s [] = sym (append-nil (roots s))
run-roots s (c ∷ cs) =
    run-roots (step s c) cs
    ∙ ap (λ (l : List ℕ). l ++ pushed cs) (step-roots s c)
    ∙ append_assoc (roots s) (pushed (c ∷ [])) (pushed cs)
    ∙ ap (◌++◌ (roots s)) (pushed-cons c cs)

-- After a merge nothing is left in the buffer.
merge_roots-empty :
    (rs ws : List ℕ) (p : ℕ)
    → (merge_roots (record { prepared_region = p; stack_roots = rs }) ws).0.stack_roots ≡ []
unfolding merge_roots
merge_roots-empty [] ws p = refl
merge_roots-empty (r ∷ rs) ws p = refl

merge_roots-prepared :
    (b : AllocBuffer) (ws : List ℕ) → (merge_roots b ws).0.prepared_region ≡ b.prepared_region
unfolding merge_roots
merge_roots-prepared b ws = ground arith

abbrev with_region : State → ℕ → State
with_region s region = record s {
  buffer = record (s.buffer) { prepared_region = region };
  accepted = region ∷ s.accepted;
}

step_busy : (s : State) (region : ℕ) → s.buffer.prepared_region ≢ 0 → step s (prepares region) ≡ s
unfolding step prepared_compare_exchange_release
step_busy s region h = ground arith

step_free :
    (s : State) (region : ℕ)
    → s.buffer.prepared_region ≡ 0
    → step s (prepares region) ≡ with_region s region
unfolding step prepared_compare_exchange_release
step_free s region h = ground arith

-- Once a region is left, no other is taken.
run_taken :
    (s : State) (cs : List Call)
    → s.buffer.prepared_region ≢ 0
    → ((run s cs).accepted ≡ s.accepted)
      × ((run s cs).buffer.prepared_region ≡ s.buffer.prepared_region)
unfolding run step push_root
run_taken s [] h = (refl, refl)
run_taken s (pushes root ∷ cs) h = run_taken (step s (pushes root)) cs h
run_taken s (prepares region ∷ cs) h =
    let (a, b) = run_taken s cs h in
    let same = step_busy s region h in
    (
      ap (λ (u : State). (run u cs).accepted) same ∙ a,
      ap (λ (u : State). (run u cs).buffer.prepared_region) same ∙ b,
    )
run_taken s (merges ∷ cs) h =
    let same = merge_roots-prepared s.buffer s.work_stack in
    let (a, b) = run_taken (step s merges) cs (ground (arith, same)) in (a, b ∙ same)

-- The first of a list, if there is one, and else 0.
abbrev pub first : List ℕ → ℕ
first [] = 0
first (x ∷ xs) = x

abbrev pub just_first : List ℕ → List ℕ
just_first [] = []
just_first (x ∷ xs) = x ∷ []

run_free :
    (s : State) (cs : List Call)
    → s.buffer.prepared_region ≡ 0
    → All (λ r. r ≢ 0) (offered cs)
    → ((run s cs).accepted ≡ just_first (offered cs) ++ s.accepted)
      × ((run s cs).buffer.prepared_region ≡ first (offered cs))
unfolding run step push_root
run_free s [] h all = (refl, h)
run_free s (pushes root ∷ cs) h all = run_free (step s (pushes root)) cs h all
run_free s (prepares region ∷ cs) h all =
    let (a, b) = run_taken (with_region s region) cs all.0 in
    let taken = step_free s region h in
    (
      ap (λ (u : State). (run u cs).accepted) taken ∙ a,
      ap (λ (u : State). (run u cs).buffer.prepared_region) taken ∙ b,
    )
run_free s (merges ∷ cs) h all =
    run_free (step s merges) cs (merge_roots-prepared s.buffer s.work_stack ∙ h) all

abbrev pub constructed : List ℕ → State
constructed work_stack = record {
  buffer = record { prepared_region = 0; stack_roots = [] };
  work_stack = work_stack;
  accepted = [];
}

-- In every history of a new buffer whose offered regions are not null: each root pushed is once on
-- the work stack or in the buffer, in the order of the pushes and behind what the work stack held;
-- of the attempts to leave a region exactly the first succeeds, and its region stays; and a merge
-- at the end leaves no root in the buffer.
pub run-constructed :
    (work_stack : List ℕ) (cs : List Call)
    → All (λ r. r ≢ 0) (offered cs)
    → let s = run (constructed work_stack) cs in
      (roots s ≡ work_stack ++ pushed cs)
      × (s.accepted ≡ just_first (offered cs))
      × (prepared_load_relaxed s.buffer ≡ first (offered cs))
      × ((step s merges).work_stack ≡ work_stack ++ pushed cs)
unfolding step prepared_load_relaxed
run-constructed work_stack cs all =
    let s = run (constructed work_stack) cs in
    let (a, b) = run_free (constructed work_stack) cs refl all in
    let r =
      run-roots (constructed work_stack) cs
      ∙ ap (λ (l : List ℕ). l ++ pushed cs) (append-nil work_stack) in
    (
      r,
      a ∙ append-nil _,
      b,
      sym (append-nil _)
          ∙ ap (◌++◌ (merge_roots s.buffer s.work_stack).1)
              (sym (merge_roots-empty s.buffer.stack_roots s.work_stack s.buffer.prepared_region))
          ∙ merge_roots-roots s.buffer.stack_roots s.work_stack s.buffer.prepared_region
          ∙ r,
    )
