-- ===== src/Tests/Locks.antt =====
-- Runs of the locks of rt0/os: the mutex of the page pool over a pthread that stores the holder in
-- the mutex, and a wait that is interrupted twice.
use cjcj_runtime.Base.{
  ℕ, ◌≡◌, ◌⊎◌, refl, Bool, true, false, ◌&&◌, ◌==◌, if◌then◌else◌, List, [], ◌∷◌, Option, none,
  some, arith,
}
use cjcj_runtime.Locks.PagePoolMutex.{
  windows, Pthread, IsPthread, done, construct, lock, Threads, locks, Reach, here, next,
}
use cjcj_runtime.Locks.PagePoolMutex.Exclusion.{construct-alone_inside}
use cjcj_runtime.Locks.Semaphore.{Return, eintr}

abbrev locked : ℕ → Option ℕ → Option (Option ℕ × ℕ)
locked i none = some (some i, 0)
locked i (some j) = none

abbrev tried : ℕ → Option ℕ → Option ℕ × ℕ
tried i none = (some i, 0)
tried i (some j) = (some j, 16)

abbrev std_tried : ℕ → Option ℕ → Option ℕ × Bool
std_tried i none = (some i, true)
std_tried i (some j) = (some j, false)

-- The mutex is its holder.
abbrev pthread : Pthread (Option ℕ)
pthread = record {
  initializer = none;
  mutex_init = λ m. (none, 0);
  mutex_lock = locked;
  mutex_trylock = tried;
  mutex_unlock = λ i m. (none, 0);
  mutex_destroy = λ m. (m, 0);
  std_construct = none;
  std_try_lock = std_tried;
  std_destroy = λ m. m;
  holder = some;
}

pthread-IsPthread : IsPthread pthread
pthread-IsPthread = record {
  initializer_free = refl;
  init_free = λ m e. refl;
  lock_free = λ i m e. (some i, ground arith, refl);
  lock_held = λ i j m e. ground arith;
  trylock_free = λ i m e. ground arith;
  trylock_held = λ i j m e. ground arith;
  unlock_held = λ i m e. ground arith;
  std_construct_free = refl;
  std_try_lock_free = λ i m e. ground arith;
  std_try_lock_held = λ i j m e. ground arith;
}

abbrev free : Threads pthread
free = record { mutex = none; inside = λ i. false; is_aborted = false }

abbrev taken : Threads pthread
taken = record {
  mutex = some 3;
  inside = λ j. if j == 3 then true else free.inside j;
  is_aborted = false;
}

-- Thread 3 locks.
taken-Reach : Reach pthread windows free taken
unfolding lock
taken-Reach = next here (locks 3 (done (some 3)) refl refl)

built : construct pthread windows none ≡ done none
unfolding construct
built = refl

construct-alone_inside_example :
    (false ≡ false) × ((◌≡◌ {A = ℕ} 3 4) ⊎ ((taken.inside 3 && taken.inside 4) ≡ false))
construct-alone_inside_example =
    construct-alone_inside pthread pthread-IsPthread windows none none taken 3 4 built taken-Reach

abbrev interrupted : Return
interrupted = record { result = 1; errno = eintr }

abbrev success : Return
success = record { result = 0; errno = eintr }

abbrev returns : List Return
returns = interrupted ∷ interrupted ∷ success ∷ interrupted ∷ []
