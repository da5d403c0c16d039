-- ===== src/Locks/Permits.antt =====
-- rt0/os/Linux/CJThreadSemaphore.cpp: the five calls on a semaphore in storage that the caller owns,
-- and the threads that use it. The semaphores of the system are a parameter.
pub mod Balance
use cjcj_runtime.Base.{
  ℕ, suc, ◌+◌, ◌≡◌, ◌≢◌, ◌==◌, if◌then◌else◌, List, [], ◌∷◌, Option, none, some, Bool, true, false,
}
use cjcj_runtime.Locks.Semaphore.{Return, is_interrupted}

-- The calls of the system on the storage `S`. The number that `sem_wait` takes stands for what
-- happens while it waits, such as a signal; `none`: it has not returned yet.
pub record Semaphores (S : Type 0) : Type 0 where
  pub sem_init : ℕ → ℕ → S → ℕ × S
  pub sem_wait : ℕ → S → Option (Return × S)
  pub sem_post : S → ℕ × S
  pub sem_destroy : S → ℕ × S
  pub value : S → ℕ

-- What POSIX says of the calls that return.
pub record IsSemaphores {S : Type 0} (x : Semaphores S) : Type 0 where
  pub init_value :
      (pshared v : ℕ) (s : S)
      → (x.sem_init pshared v s).0 ≡ 0
      → x.value (x.sem_init pshared v s).1 ≡ v
  pub wait_takes :
      (e : ℕ) (s t : S) (r : Return)
      → x.sem_wait e s ≡ some (r, t)
      → r.result ≡ 0
      → x.value s ≡ suc (x.value t)
  pub wait_fails :
      (e : ℕ) (s t : S) (r : Return)
      → x.sem_wait e s ≡ some (r, t)
      → r.result ≢ 0
      → x.value t ≡ x.value s
  pub post_adds : (s : S) → (x.sem_post s).0 ≡ 0 → x.value (x.sem_post s).1 ≡ suc (x.value s)
  pub post_fails : (s : S) → (x.sem_post s).0 ≢ 0 → x.value (x.sem_post s).1 ≡ x.value s

-- How one round of the loop of `wait_no_intr` ends.
pub data LoopEnd : Type 0 where
  again : LoopEnd
  returns : ℕ → LoopEnd

module _ {S : Type 0} (x : Semaphores S) where
  unfoldable pub semaphore_init : S → ℕ → ℕ → ℕ × S
  semaphore_init s pshared v = x.sem_init pshared v s

  unfoldable pub semaphore_wait : ℕ → S → Option (ℕ × S)
  semaphore_wait e s = elim (x.sem_wait e s) [ none ↦ none | some (r, t) ↦ some (r.result, t) ]

  -- One round of the loop of `wait_no_intr`, on what happens during its wait. `none`: it is still in
  -- the wait.
  unfoldable pub try_wait : ℕ → S → Option (LoopEnd × S)
  try_wait e s = elim (x.sem_wait e s) [
    | none ↦ none
    | some (r, t) ↦ some (if is_interrupted r then again else returns r.result, t)
  ]

  -- The loop of a thread that is alone, on what happens during each of its waits.
  unfoldable pub wait_no_intr : List ℕ → S → Option (ℕ × S)
  wait_no_intr [] s = none
  wait_no_intr (e ∷ es) s = elim (try_wait e s) [
    | none ↦ none
    | some (again, t) ↦ wait_no_intr es t
    | some (returns result, t) ↦ some (result, t)
  ]

  unfoldable pub semaphore_post : S → ℕ × S
  semaphore_post s = x.sem_post s

  unfoldable pub semaphore_destroy : S → ℕ × S
  semaphore_destroy s = x.sem_destroy s

  -- The storage, which threads are between two rounds of the loop of `wait_no_intr`, and how many
  -- waits and posts have returned 0.
  pub record Users : Type 0 where
    pub storage : S
    pub looping : ℕ → Bool
    pub passed : ℕ
    pub posted : ℕ

  abbrev pub one_if_zero : ℕ → ℕ
  one_if_zero result = if result == 0 then 1 else 0

  abbrev pub set_looping : (ℕ → Bool) → ℕ → Bool → ℕ → Bool
  set_looping f i b k = if k == i then b else f k

  -- No thread has called anything yet.
  abbrev pub begins : S → Users
  begins s = record { storage = s; looping = λ i. false; passed = 0; posted = 0 }

  -- One call of the system by thread `i`. Between two rounds of its loop the thread can make no
  -- other call, and the other threads can make any.
  pub data Step (u : Users) : Users → Type 0 where
    waits :
        (i e result : ℕ) (t : S)
        → u.looping i ≡ false
        → semaphore_wait e u.storage ≡ some (result, t)
        → Step u (record u { storage = t; passed = one_if_zero result + u.passed })
    tries_again :
        (i e : ℕ) (t : S)
        → try_wait e u.storage ≡ some (again, t)
        → Step u (record u { storage = t; looping = set_looping u.looping i true })
    stops_trying :
        (i e result : ℕ) (t : S)
        → try_wait e u.storage ≡ some (returns result, t)
        → Step u (record u {
          storage = t;
          looping = set_looping u.looping i false;
          passed = one_if_zero result + u.passed;
        })
    posts :
        (i : ℕ)
        → u.looping i ≡ false
        → Step u (record u {
          storage = (semaphore_post u.storage).1;
          posted = one_if_zero (semaphore_post u.storage).0 + u.posted;
        })

  pub data Reach (u : Users) : Users → Type 0 where
    here : Reach u u
    next : {v w : Users} → Reach u v → Step v w → Reach u w
