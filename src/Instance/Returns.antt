-- ===== src/Instance/Returns.antt =====
-- instance_bridge.cpp: whether the call of `CJCJ_MRT_InstanceNew` returns.
use cjcj_runtime.Base.{ℕ, suc, ◌+◌, ◌*◌, ◌≤◌, ◌≡◌, ◌≢◌, refl, ap, ◌∙◌, true, arith, ◌⊎◌, inl, inr}
use cjcj_runtime.Instance.Start.{
  Caller, testing, falling_asleep, asleep, returned, Starter, starting, created, published, flagged,
  running, Shared, start, has_returned, wake, PromptStep, acts, Run, done, goes_on, test_true,
  test_false, sleep, create, publish, flag, notify, Reach,
}
use cjcj_runtime.Instance.Handshake.{Inv, Step-Inv, Reach-Inv, start-Inv}

-- The new thread goes on to the setting of the flag, while the caller stays where it is.
advance :
    (s : Shared) (st : Starter)
    → Inv s
    → s.starter ≡ st
    → st ≢ running
    → (t : Shared) × ((u : Shared) → Run t u → Run s u)
      × (t.starter ≡ flagged)
      × (t.inited ≡ true)
      × (t.caller ≡ s.caller)
advance s starting v e n = (
  _,
  λ u r. goes_on (create 0 e) (goes_on (publish 0 refl) (goes_on (flag refl) r)),
  refl,
  refl,
  refl,
)
advance s (created h) v e n =
    (_, λ u r. goes_on (publish h e) (goes_on (flag refl) r), refl, refl, refl)
advance s published v e n = (_, λ u r. goes_on (flag e) r, refl, refl, refl)
advance s flagged v e n = (s, λ u r. r, e, ground (arith, v.marked), refl)
advance s running v e n = absurd (n refl)

-- Between the setting of the flag and the notification, the notification wakes a caller that
-- sleeps, and the caller then finds the flag.
finish :
    (s : Shared) (c : Caller)
    → s.caller ≡ c
    → s.starter ≡ flagged
    → s.inited ≡ true
    → (t : Shared) × Run s t × (has_returned t.caller ≡ true)
finish s testing e f i = (_, goes_on (test_true e i) done, refl)
finish s falling_asleep e f i =
    (_, goes_on (sleep e) (goes_on (notify f) (goes_on (test_true refl i) done)), refl)
finish s asleep e f i = (_, goes_on (notify f) (goes_on (test_true (ap wake e) i) done), refl)
finish s (returned r) e f i = (s, done, ground arith)

finish_before :
    (s : Shared)
    → Inv s
    → s.starter ≢ running
    → (t : Shared) × Run s t × (has_returned t.caller ≡ true)
finish_before s v before =
    let (t, go, f, i, _) = advance s s.starter v refl before in
    let (u, r, e) = finish t t.caller refl f i in (u, go u r, e)

-- A caller that is awake after the notification returns without it.
finish_awake :
    (s : Shared) (c : Caller)
    → s.caller ≡ c
    → s.inited ≡ true
    → (c ≡ testing) ⊎ (has_returned c ≡ true)
    → (t : Shared) × Run s t × (has_returned t.caller ≡ true)
finish_awake s c e i (inl h) = (_, goes_on (test_true (e ∙ h) i) done, refl)
finish_awake s c e i (inr h) = (s, done, rw e h)

running-cases : (st : Starter) → (st ≡ running) ⊎ (st ≢ running)
running-cases starting = inr (λ e. cc)
running-cases (created h) = inr (λ e. cc)
running-cases published = inr (λ e. cc)
running-cases flagged = inr (λ e. cc)
running-cases running = inl refl

-- From every state that the two threads reach and in which the new thread has not yet notified, or
-- the caller is about to test the flag or has returned, there is a run without a spurious wake-up
-- in which the call returns. The states left out are those in which the notification has come
-- before the caller's sleep and is lost.
can_return :
    (s : Shared)
    → Reach start s
    → (s.starter ≢ running) ⊎ ((s.caller ≡ testing) ⊎ (has_returned s.caller ≡ true))
    → (t : Shared) × Run s t × (has_returned t.caller ≡ true)
can_return s reach (inl before) = finish_before s (Reach-Inv reach start-Inv) before
can_return s reach (inr awake) = elim (running-cases s.starter) [
  | inl e ↦
      let v = Reach-Inv reach start-Inv in
      finish_awake s s.caller refl (ground (arith, v.marked, e)) awake
  | inr before ↦ finish_before s (Reach-Inv reach start-Inv) before
]

-- The caller sleeps and the new thread has not yet notified, or the caller is about to test and the
-- flag is set, or the call has returned.
abbrev pub IsServed : Shared → Type 0
IsServed s =
    ((s.caller ≡ asleep) × (s.starter ≢ running))
    ⊎ (((s.caller ≡ testing) × (s.inited ≡ true)) ⊎ (has_returned s.caller ≡ true))

wake-has_returned : (c : Caller) → has_returned c ≡ true → has_returned (wake c) ≡ true
wake-has_returned testing h = h
wake-has_returned falling_asleep h = h
wake-has_returned asleep h = absurd (cc)
wake-has_returned (returned r) h = h

PromptStep-IsServed : (s t : Shared) → Inv s → IsServed s → PromptStep s t → IsServed t
PromptStep-IsServed s t v (inl (a, n)) (test_true e i) = absurd (cc)
PromptStep-IsServed s t v (inl (a, n)) (test_false e i) = absurd (cc)
PromptStep-IsServed s t v (inl (a, n)) (sleep e) = absurd (cc)
PromptStep-IsServed s t v (inl (a, n)) (create h e) = inl (a, λ q. cc)
PromptStep-IsServed s t v (inl (a, n)) (publish h e) = inl (a, λ q. cc)
PromptStep-IsServed s t v (inl (a, n)) (flag e) = inl (a, λ q. cc)
PromptStep-IsServed s t v (inl (a, n)) (notify e) =
    inr (inl (ap wake a, ground (arith, v.marked, e)))
PromptStep-IsServed s t v (inr (inl (a, i))) (test_true e j) = inr (inr refl)
PromptStep-IsServed s t v (inr (inl (a, i))) (test_false e j) = absurd (cc)
PromptStep-IsServed s t v (inr (inl (a, i))) (sleep e) = absurd (cc)
PromptStep-IsServed s t v (inr (inl (a, i))) (create h e) = inr (inl (a, i))
PromptStep-IsServed s t v (inr (inl (a, i))) (publish h e) = inr (inl (a, i))
PromptStep-IsServed s t v (inr (inl (a, i))) (flag e) = inr (inl (a, refl))
PromptStep-IsServed s t v (inr (inl (a, i))) (notify e) = inr (inl (ap wake a, i))
PromptStep-IsServed s t v (inr (inr h)) (test_true e j) = inr (inr refl)
PromptStep-IsServed s t v (inr (inr h)) (test_false e j) = absurd (ground arith)
PromptStep-IsServed s t v (inr (inr h)) (sleep e) = absurd (ground arith)
PromptStep-IsServed s t v (inr (inr h)) (create k e) = inr (inr h)
PromptStep-IsServed s t v (inr (inr h)) (publish k e) = inr (inr h)
PromptStep-IsServed s t v (inr (inr h)) (flag e) = inr (inr h)
PromptStep-IsServed s t v (inr (inr h)) (notify e) = inr (inr (wake-has_returned s.caller h))

starter-PromptStep :
    (s : Shared) (st : Starter) → s.starter ≡ st → st ≢ running → (u : Shared) × PromptStep s u
starter-PromptStep s starting e n = (_, create 0 e)
starter-PromptStep s (created h) e n = (_, publish h e)
starter-PromptStep s published e n = (_, flag e)
starter-PromptStep s flagged e n = (_, notify e)
starter-PromptStep s running e n = absurd (n refl)

IsServed-PromptStep :
    (s : Shared) → IsServed s → (has_returned s.caller ≡ true) ⊎ ((u : Shared) × PromptStep s u)
IsServed-PromptStep s (inl (a, n)) = inr (starter-PromptStep s s.starter refl n)
IsServed-PromptStep s (inr (inl (a, i))) = inr (_, test_true a i)
IsServed-PromptStep s (inr (inr h)) = inl h

Run-IsServed : {s t : Shared} → Inv s → IsServed s → Run s t → IsServed t
Run-IsServed v h done = h
Run-IsServed v h (goes_on {s} {t} {u} st r) =
    Run-IsServed (Step-Inv (acts st) v) (PromptStep-IsServed s t v h st) r

abbrev pub steps : {s t : Shared} → Run s t → ℕ
steps done = 0
steps (goes_on st r) = suc (steps r)

-- How many steps are left at most: three for each stage of the new thread, since its notification
-- takes a caller that sleeps back to the test.
abbrev caller_left : Caller → ℕ
caller_left testing = 3
caller_left falling_asleep = 2
caller_left asleep = 1
caller_left (returned r) = 0

abbrev starter_left : Starter → ℕ
starter_left starting = 4
starter_left (created h) = 3
starter_left published = 2
starter_left flagged = 1
starter_left running = 0

abbrev left : Shared → ℕ
left s = caller_left s.caller + 3 * starter_left s.starter

caller_left-wake : (c : Caller) → caller_left (wake c) ≤ caller_left c + 2
caller_left-wake testing = omega arith
caller_left-wake falling_asleep = omega arith
caller_left-wake asleep = omega arith
caller_left-wake (returned r) = omega arith

caller_left-le : (c : Caller) → caller_left c ≤ 3
caller_left-le testing = omega arith
caller_left-le falling_asleep = omega arith
caller_left-le asleep = omega arith
caller_left-le (returned r) = omega arith

starter_left-le : (st : Starter) → starter_left st ≤ 4
starter_left-le starting = omega arith
starter_left-le (created h) = omega arith
starter_left-le published = omega arith
starter_left-le flagged = omega arith
starter_left-le running = omega arith

PromptStep-left : (s t : Shared) → PromptStep s t → suc (left t) ≤ left s
PromptStep-left s t (test_true e i) = omega (arith, ap caller_left e)
PromptStep-left s t (test_false e i) = omega (arith, ap caller_left e)
PromptStep-left s t (sleep e) = omega (arith, ap caller_left e)
PromptStep-left s t (create h e) = omega (arith, ap starter_left e)
PromptStep-left s t (publish h e) = omega (arith, ap starter_left e)
PromptStep-left s t (flag e) = omega (arith, ap starter_left e)
PromptStep-left s t (notify e) = omega (arith, ap starter_left e, caller_left-wake s.caller)

steps-left : {s t : Shared} (r : Run s t) → steps r + left t ≤ left s
steps-left done = omega arith
steps-left (goes_on {s} {t} {u} st r) = omega (arith, PromptStep-left s t st, steps-left r)

-- From every reachable state in which the caller sleeps and the new thread has not yet notified, or
-- the caller is about to test and the flag is set, or the call has returned: every run without a
-- spurious wake-up, however the two threads take turns, has at most fifteen steps, and as long as
-- the call has not returned, one of the threads can take another step. So the call returns.
pub every_run_returns :
    {s t : Shared}
    → Reach start s
    → IsServed s
    → (r : Run s t)
    → (steps r ≤ 15) × ((has_returned t.caller ≡ true) ⊎ ((u : Shared) × PromptStep t u))
every_run_returns {s} {t} reach served r = (
  omega (arith, steps-left r, caller_left-le s.caller, starter_left-le s.starter),
  IsServed-PromptStep t (Run-IsServed (Reach-Inv reach start-Inv) served r),
)
