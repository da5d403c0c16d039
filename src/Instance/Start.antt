-- ===== src/Instance/Start.antt =====
-- instance_bridge.cpp, lines 46-94 and 114-143: the thread that calls `CJCJ_MRT_InstanceNew` and
-- the sub-scheduler's thread, which share the context on the caller's stack. One step is one
-- action of one thread on the shared state.
use cjcj_runtime.Base.{ℕ, Bool, Option, none, some, ◌≡◌, true, false}

-- Where the caller stands in `conditionVariable.wait(lock, inited)`: about to test, past a failed
-- test and about to sleep, asleep, or returned with the value of `context.schedule`.
pub data Caller : Type 0 where
  testing : Caller
  falling_asleep : Caller
  asleep : Caller
  returned : Option ℕ → Caller

-- Where the new thread stands: before `CreateSubSchedulerAndInit`, with the scheduler, after
-- `data->schedule`, after `inited->store(true)`, and after `notify_all`.
pub data Starter : Type 0 where
  starting : Starter
  created : ℕ → Starter
  published : Starter
  flagged : Starter
  running : Starter

-- `after_return` is set by a use of the context after the caller has returned, when the context,
-- the flag and the condition variable are gone.
pub record Shared : Type 0 where
  pub caller : Caller
  pub starter : Starter
  pub schedule : Option ℕ
  pub inited : Bool
  pub after_return : Bool

abbrev pub start : Shared
start = record {
  caller = testing;
  starter = starting;
  schedule = none;
  inited = false;
  after_return = false;
}

abbrev pub wake : Caller → Caller
wake testing = testing
wake falling_asleep = falling_asleep
wake asleep = testing
wake (returned r) = returned r

abbrev pub has_returned : Caller → Bool
has_returned testing = false
has_returned falling_asleep = false
has_returned asleep = false
has_returned (returned r) = true

-- One action of a thread. The scheduler that is created is any address. The new thread holds no
-- lock when it sets the flag and notifies.
pub data PromptStep (s : Shared) : Shared → Type 0 where
  test_true :
      s.caller ≡ testing
      → s.inited ≡ true
      → PromptStep s (record s { caller = returned s.schedule })
  test_false :
      s.caller ≡ testing → s.inited ≡ false → PromptStep s (record s { caller = falling_asleep })
  sleep : s.caller ≡ falling_asleep → PromptStep s (record s { caller = asleep })
  create : (h : ℕ) → s.starter ≡ starting → PromptStep s (record s { starter = created h })
  publish :
      (h : ℕ)
      → s.starter ≡ created h
      → PromptStep s (record s { starter = published; schedule = some h })
  flag : s.starter ≡ published → PromptStep s (record s { starter = flagged; inited = true })
  notify :
      s.starter ≡ flagged
      → PromptStep s (record s {
        starter = running;
        caller = wake s.caller;
        after_return = has_returned s.caller;
      })

-- The caller may also wake up without a notification.
pub data Step (s : Shared) : Shared → Type 0 where
  acts : {t : Shared} → PromptStep s t → Step s t
  spurious : s.caller ≡ asleep → Step s (record s { caller = testing })

pub data Reach (s : Shared) : Shared → Type 0 where
  here : Reach s s
  next : {t u : Shared} → Reach s t → Step t u → Reach s u

-- A run of the threads in which the caller wakes up by notifications alone.
pub data Run : Shared → Shared → Type 0 where
  done : {s : Shared} → Run s s
  goes_on : {s t u : Shared} → PromptStep s t → Run t u → Run s u
