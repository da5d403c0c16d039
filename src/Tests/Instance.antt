-- ===== src/Tests/Instance.antt =====
-- Runs of src.native/rt.instance/instance_bridge.cpp, and of the locks of src/rt.base.
use cjcj_runtime.Base.{
  ℕ, ◌≤◌, ◌≡◌, ◌≢◌, refl, Option, none, some, ◌==◌, true, false, arith, [], ◌∷◌, ◌⊎◌, if◌then◌else◌,
  inl,
}
use cjcj_runtime.Instance.Api.{
  InstanceParam, Runtime, instance_run_task, instance_stop, instance_guards,
}
use cjcj_runtime.Instance.Start
use cjcj_runtime.Instance.Start.{
  Shared, Caller, returned, start, has_returned, asleep, testing, create, publish, flag, test_true,
  test_false, sleep, acts, notify, goes_on, done, PromptStep,
}
use cjcj_runtime.Instance.Handshake.{returned-schedule}
use cjcj_runtime.Instance.Returns.{steps, every_run_returns}
use cjcj_runtime.Locks.SpinLock
use cjcj_runtime.Locks.SpinLock.{Threads, alone_inside, try_lock}
use cjcj_runtime.Locks.RwLock
use cjcj_runtime.Locks.RwLock.{
  System, outside, loaded, reading, load, enter_read, move, Move, write_locked,
}
use cjcj_runtime.Locks.RwLock.Exclusion.{Inv, Reach-Inv_free}

abbrev runtime : Runtime
runtime = record {
  concurrency_param = record { th_stack_size = 1024; co_stack_size = 128; processor_num = 8 };
  is_valid_sub_scheduler = λ h. h == 4096;
  run_task_to_schedule = λ f a h. 7;
  stop_sub_scheduler = λ h. 0;
}

abbrev param : InstanceParam
param = record { th_stack_size = 2048; co_stack_size = 0; processor_num = 2 }

instance_guards_example :
    ((instance_run_task (some runtime) 4096 1 2 ≡ 0)
      ⊎ ((◌≢◌ {A = ℕ} 4096 0)
          × ((q : Runtime) × (◌≡◌ {A = Option Runtime} (some runtime) (some q))
              × (q.is_valid_sub_scheduler 4096 ≡ true))))
    × ((instance_stop (some runtime) 4096 ≡ 1)
        ⊎ ((◌≢◌ {A = ℕ} 4096 0) × (◌≢◌ {A = Option Runtime} (some runtime) none)))
instance_guards_example = instance_guards (some runtime) 4096 1 2

abbrev finished : Shared
finished = record {
  caller = returned (some 4096);
  starter = Start.flagged;
  schedule = some 4096;
  inited = true;
  after_return = false;
}

start-finished : Start.Reach start finished
start-finished =
    Start.next
      (Start.next
        (Start.next (Start.next Start.here (acts (create 4096 refl))) (acts (publish 4096 refl)))
        (acts (flag refl)))
      (acts (test_true refl refl))

returned-schedule_example :
    (h : ℕ) × (◌≡◌ {A = Option ℕ} (some 4096) (some h))
    × (finished.schedule ≡ some h)
    × (finished.inited ≡ true)
returned-schedule_example = returned-schedule finished (some 4096) start-finished refl

-- The caller sleeps, and the new thread has not started.
abbrev waiting : Shared
waiting = record start { caller = asleep }

start-waiting : Start.Reach start waiting
start-waiting = Start.next (Start.next Start.here (acts (test_false refl refl))) (acts (sleep refl))

-- The new thread runs to its end, and wakes the caller.
abbrev woken : Shared
woken = record waiting {
  caller = testing;
  starter = Start.running;
  schedule = some 4096;
  inited = true;
}

waiting-woken : Start.Run waiting woken
waiting-woken =
    goes_on (create 4096 refl)
      (goes_on (publish 4096 refl) (goes_on (flag refl) (goes_on (notify refl) done)))

every_run_returns_example :
    (steps waiting-woken ≤ 15)
    × ((has_returned testing ≡ true) ⊎ ((u : Shared) × PromptStep woken u))
every_run_returns_example = every_run_returns start-waiting (inl (refl, λ e. cc)) waiting-woken

-- Thread 1 takes the spin lock at address 8.
abbrev unlocked : Threads
unlocked = record { memory = λ a. 0; inside = λ i. false }

abbrev locked : Threads
locked = record {
  memory = (try_lock unlocked.memory 8).0;
  inside = λ j. if j == 1 then (try_lock unlocked.memory 8).1 else false;
}

one_inside : locked.inside 1 ≡ true
unfolding try_lock
one_inside = refl

alone_inside_example : ◌≡◌ {A = ℕ} 1 1
alone_inside_example =
    alone_inside 8 unlocked locked 1 1 (λ k. refl)
      (SpinLock.next SpinLock.here (SpinLock.tries 1 refl)) one_inside one_inside

-- One of two threads takes the reader-writer lock for reading.
abbrev free : System
free = record { count = 0; threads = outside ∷ outside ∷ [] }

abbrev one_loaded : System
one_loaded = record { count = 0; threads = loaded 0 ∷ outside ∷ [] }

abbrev one_reader : System
one_reader = record { count = 1; threads = reading ∷ outside ∷ [] }

free-one_reader : RwLock.Reach free one_reader
free-one_reader =
    RwLock.next (RwLock.next RwLock.here (move [] (outside ∷ []) outside (loaded 0) 0 refl load))
      (move [] (outside ∷ []) (loaded 0) reading 1 refl (enter_read 0 (cc) refl))

Reach-Inv_free_example : Inv one_reader
Reach-Inv_free_example =
    Reach-Inv_free free one_reader refl refl refl refl (omega arith) free-one_reader
