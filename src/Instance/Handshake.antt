-- ===== src/Instance/Handshake.antt =====
-- instance_bridge.cpp: the runs of the two threads of `CJCJ_MRT_InstanceNew`.
use cjcj_runtime.Base.{ℕ, ◌≤◌, leb, Bool, Option, none, some, ◌≡◌, refl, true, false, arith, ◌∙◌}
use cjcj_runtime.Instance.Start.{
  Caller, testing, falling_asleep, asleep, returned, Starter, starting, created, published, flagged,
  running, Shared, start, wake, acts, Step, test_true, test_false, sleep, spurious, create, publish,
  flag, notify, Reach, here, next,
}

abbrev pub is_some : Option ℕ → Bool
is_some none = false
is_some (some h) = true

abbrev pub stage : Starter → ℕ
stage starting = 0
stage (created h) = 1
stage published = 2
stage flagged = 3
stage running = 4

pub record Inv (s : Shared) : Type 0 where
  pub stored : 2 ≤ stage s.starter → is_some s.schedule ≡ true
  pub marked : s.inited ≡ leb 3 (stage s.starter)
  pub answer : (r : Option ℕ) → s.caller ≡ returned r → (r ≡ s.schedule) × (s.inited ≡ true)

wake-returned : (c : Caller) (r : Option ℕ) → wake c ≡ returned r → c ≡ returned r
wake-returned testing r e = absurd (cc)
wake-returned falling_asleep r e = absurd (cc)
wake-returned asleep r e = absurd (cc)
wake-returned (returned q) r e = e

stored-Inv : (s t : Shared) → Inv s → Step s t → 2 ≤ stage t.starter → is_some t.schedule ≡ true
stored-Inv s t v (acts (test_true a b)) h = ground (arith, v.stored)
stored-Inv s t v (acts (test_false a b)) h = ground (arith, v.stored)
stored-Inv s t v (acts (sleep a)) h = ground (arith, v.stored)
stored-Inv s t v (spurious a) h = ground (arith, v.stored)
stored-Inv s t v (acts (create k a)) h = ground arith
stored-Inv s t v (acts (publish k a)) h = refl
stored-Inv s t v (acts (flag a)) h = v.stored (ground arith)
stored-Inv s t v (acts (notify a)) h = v.stored (ground arith)

answer-Inv :
    (s t : Shared)
    → Inv s
    → Step s t
    → (r : Option ℕ) → t.caller ≡ returned r
    → (r ≡ t.schedule) × (t.inited ≡ true)
answer-Inv s t v (acts (test_true a b)) r e = (cc, b)
answer-Inv s t v (acts (test_false a b)) r e = absurd (cc)
answer-Inv s t v (acts (sleep a)) r e = absurd (cc)
answer-Inv s t v (spurious a) r e = absurd (cc)
answer-Inv s t v (acts (create k a)) r e = v.answer r e
answer-Inv s t v (acts (publish k a)) r e = ground (arith, v.marked, v.answer r e)
answer-Inv s t v (acts (flag a)) r e = ((v.answer r e).0, refl)
answer-Inv s t v (acts (notify a)) r e = v.answer r (wake-returned s.caller r e)

marked-Inv : (s t : Shared) → Inv s → Step s t → t.inited ≡ leb 3 (stage t.starter)
marked-Inv s t v (acts (test_true a b)) = v.marked
marked-Inv s t v (acts (test_false a b)) = v.marked
marked-Inv s t v (acts (sleep a)) = v.marked
marked-Inv s t v (spurious a) = v.marked
marked-Inv s t v (acts (create k a)) = ground (arith, v.marked)
marked-Inv s t v (acts (publish k a)) = ground (arith, v.marked)
marked-Inv s t v (acts (flag a)) = refl
marked-Inv s t v (acts (notify a)) = ground (arith, v.marked)

pub Step-Inv : {s t : Shared} → Step s t → Inv s → Inv t
Step-Inv {s} {t} st v = record {
  stored = stored-Inv s t v st;
  marked = marked-Inv s t v st;
  answer = answer-Inv s t v st;
}

pub Reach-Inv : {s t : Shared} → Reach s t → Inv s → Inv t
Reach-Inv here v = v
Reach-Inv (next r st) v = Step-Inv st (Reach-Inv r v)

pub start-Inv : Inv start
start-Inv = record {
  stored = λ h. absurd (omega arith);
  marked = refl;
  answer = λ r e. absurd (cc);
}

some_of : (o : Option ℕ) → is_some o ≡ true → (h : ℕ) × (o ≡ some h)
some_of none e = absurd (cc)
some_of (some h) e = (h, refl)

-- In every interleaving of the two threads, when `CJCJ_MRT_InstanceNew` has returned, the flag is
-- set and its value is the scheduler that the new thread has stored before it set the flag.
pub returned-schedule :
    (s : Shared) (r : Option ℕ)
    → Reach start s
    → s.caller ≡ returned r
    → (h : ℕ) × (r ≡ some h) × (s.schedule ≡ some h) × (s.inited ≡ true)
returned-schedule s r reach e =
    let v = Reach-Inv reach start-Inv in
    let (same, set) = v.answer r e in
    let (h, q) = some_of s.schedule (v.stored (ground (arith, v.marked))) in (h, same ∙ q, q, set)

abbrev pub overslept : ℕ → Shared
overslept h = record {
  caller = asleep;
  starter = running;
  schedule = some h;
  inited = true;
  after_return = false;
}

asleep-steps :
    (s t : Shared)
    → s.caller ≡ asleep
    → s.starter ≡ running
    → Step s t
    → t ≡ record s { caller = testing }
asleep-steps s t a b (acts (test_true e i)) = absurd (cc)
asleep-steps s t a b (acts (test_false e i)) = absurd (cc)
asleep-steps s t a b (acts (sleep e)) = absurd (cc)
asleep-steps s t a b (spurious e) = refl
asleep-steps s t a b (acts (create h e)) = absurd (cc)
asleep-steps s t a b (acts (publish h e)) = absurd (cc)
asleep-steps s t a b (acts (flag e)) = absurd (cc)
asleep-steps s t a b (acts (notify e)) = absurd (cc)

-- The wake-up can be lost: the notification falls between the caller's test and its sleep, since
-- the new thread does not hold the mutex. Then the caller sleeps with the flag set, and the only
-- step left is a spurious wake-up.
pub lost_wake_up :
    (h : ℕ)
    → Reach start (overslept h)
      × ((t : Shared) → Step (overslept h) t → t ≡ record (overslept h) { caller = testing })
lost_wake_up h = (
  next
      (next
        (next
          (next (next (next here (acts (test_false refl refl))) (acts (create h refl)))
            (acts (publish h refl)))
          (acts (flag refl)))
        (acts (notify refl)))
      (acts (sleep refl)),
  λ t st. asleep-steps (overslept h) t refl refl st,
)

-- The caller can return between the setting of the flag and the notification, which then uses the
-- condition variable after its end.
pub notify_after_return :
    (h : ℕ)
    → (s : Shared) × Reach start s × (s.caller ≡ returned (some h)) × (s.after_return ≡ true)
notify_after_return h = (
  _,
  next
      (next
        (next (next (next here (acts (create h refl))) (acts (publish h refl))) (acts (flag refl)))
        (acts (test_true refl refl)))
      (acts (notify refl)),
  refl,
  refl,
)
