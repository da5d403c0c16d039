-- ===== src/Locks/SpinLock.antt =====
-- src/rt.base/AtomicSpinLock.cj: a lock that is one byte, tested and set by every thread.
use cjcj_runtime.Base.{ℕ, Bool, not, ◌==◌, if◌then◌else◌, true, false, ◌≡◌, ◌≢◌, arith}
use cjcj_runtime.Atomic.{Memory, flag_test_and_set, flag_clear}

-- `TryLock`, which is also one round of the loop of `Lock`: whether the lock was taken.
unfoldable pub try_lock : Memory → ℕ → Memory × Bool
unfolding flag_test_and_set
try_lock m p = let (k, old) = flag_test_and_set m p in (k, not old)

unfoldable pub unlock : Memory → ℕ → Memory
unfolding flag_clear
unlock m p = flag_clear m p

-- The lock at `p`, and the threads that are between a `Lock` that succeeded and their `Unlock`.
pub record Threads : Type 0 where
  pub memory : Memory
  pub inside : ℕ → Bool

module _ (p : ℕ) where
  -- A thread outside tries the lock, once or in its loop, or a thread inside leaves.
  pub data Step (s : Threads) : Threads → Type 0 where
    tries :
        (i : ℕ)
        → s.inside i ≡ false
        → Step s (record {
          memory = (try_lock s.memory p).0;
          inside = λ j. if j == i then (try_lock s.memory p).1 else s.inside j;
        })
    leaves :
        (i : ℕ)
        → s.inside i ≡ true
        → Step s (record {
          memory = unlock s.memory p;
          inside = λ j. if j == i then false else s.inside j;
        })

  pub data Reach (s : Threads) : Threads → Type 0 where
    here : Reach s s
    next : {t u : Threads} → Reach s t → Step t u → Reach s u

  record Inv (s : Threads) : Type 0 where
    alone : (i j : ℕ) → s.inside i ≡ true → s.inside j ≡ true → i ≡ j
    taken : (i : ℕ) → s.inside i ≡ true → s.memory p ≢ 0

  Step-Inv : (s t : Threads) → Step s t → Inv s → Inv t
  unfolding try_lock unlock
  Step-Inv s t (tries i out) v = record {
    alone = λ j k a b. ground (arith, v.alone j k, v.taken j, v.taken k);
    taken = λ j a. ground (arith, v.taken j);
  }
  Step-Inv s t (leaves i in_it) v = record {
    alone = λ j k a b. ground (arith, v.alone j k);
    taken = λ j a. ground (arith, v.alone i j);
  }

  Reach-Inv : {s t : Threads} → Reach s t → Inv s → Inv t
  Reach-Inv here v = v
  Reach-Inv (next {t} {u} r st) v = Step-Inv t u st (Reach-Inv r v)

  -- Mutual exclusion: started with nobody inside, in every interleaving of any number of threads
  -- at most one thread is inside.
  pub alone_inside :
      (s t : Threads) (i j : ℕ)
      → ((k : ℕ) → s.inside k ≡ false)
      → Reach s t
      → t.inside i ≡ true
      → t.inside j ≡ true
      → i ≡ j
  alone_inside s t i j empty r a b = (Reach-Inv r first).alone i j a b
    where
      first : Inv s
      first = record { alone = λ k l c d. cc (empty k); taken = λ k c. absurd (cc (empty k)) }
