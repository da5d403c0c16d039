-- ===== src/Locks/PagePoolMutex.antt =====
-- CJRT_PagePoolMutex, in rt0/os/Linux/PagePoolMutex.cpp, rt0/os/Macos/PagePoolMutex.cpp and
-- rt0/os/Windows/PagePoolMutex.cpp: a mutex in storage that the Cangjie side owns. The mutexes of
-- pthread are a parameter.
pub mod Exclusion
use cjcj_runtime.Base.{ℕ, ◌≡◌, ◌≢◌, Bool, true, false, ◌==◌, if◌then◌else◌, Option, none, some}

pub data Platform : Type 0 where
  linux macos windows : Platform

-- Mutexes with the static initializer and the calls of pthread, for a thread where it matters, and
-- what `std::mutex` does in the same storage. A result of 0 is success. `mutex_lock` is `none` as
-- long as the thread waits.
pub record Pthread (M : Type 0) : Type 0 where
  pub initializer : M
  pub mutex_init : M → M × ℕ
  pub mutex_lock : ℕ → M → Option (M × ℕ)
  pub mutex_trylock : ℕ → M → M × ℕ
  pub mutex_unlock : ℕ → M → M × ℕ
  pub mutex_destroy : M → M × ℕ
  pub std_construct : M
  pub std_try_lock : ℕ → M → M × Bool
  pub std_destroy : M → M
  -- Who holds a mutex, `some none` if nobody does; `none` if the storage is no mutex.
  pub holder : M → Option (Option ℕ)

-- What POSIX says of the calls, and the C++ library of `std::mutex`.
pub record IsPthread {M : Type 0} (p : Pthread M) : Type 0 where
  pub initializer_free : p.holder p.initializer ≡ some none
  pub init_free : (m : M) → (p.mutex_init m).1 ≡ 0 → p.holder (p.mutex_init m).0 ≡ some none
  pub lock_free :
      (i : ℕ) (m : M)
      → p.holder m ≡ some none
      → (k : M) × (p.mutex_lock i m ≡ some (k, 0)) × (p.holder k ≡ some (some i))
  pub lock_held : (i j : ℕ) (m : M) → p.holder m ≡ some (some j) → p.mutex_lock i m ≡ none
  pub trylock_free :
      (i : ℕ) (m : M)
      → p.holder m ≡ some none
      → ((p.mutex_trylock i m).1 ≡ 0) × (p.holder (p.mutex_trylock i m).0 ≡ some (some i))
  pub trylock_held :
      (i j : ℕ) (m : M)
      → p.holder m ≡ some (some j)
      → ((p.mutex_trylock i m).1 ≢ 0) × (p.holder (p.mutex_trylock i m).0 ≡ some (some j))
  pub unlock_held :
      (i : ℕ) (m : M)
      → p.holder m ≡ some (some i)
      → ((p.mutex_unlock i m).1 ≡ 0) × (p.holder (p.mutex_unlock i m).0 ≡ some none)
  pub std_construct_free : p.holder p.std_construct ≡ some none
  pub std_try_lock_free :
      (i : ℕ) (m : M)
      → p.holder m ≡ some none
      → ((p.std_try_lock i m).1 ≡ true) × (p.holder (p.std_try_lock i m).0 ≡ some (some i))
  pub std_try_lock_held :
      (i j : ℕ) (m : M)
      → p.holder m ≡ some (some j)
      → ((p.std_try_lock i m).1 ≡ false) × (p.holder (p.std_try_lock i m).0 ≡ some (some j))

-- How a call ends that may end the process by `abort`.
pub data Outcome (M : Type 0) : Type 0 where
  done : M → Outcome M
  aborted : Outcome M

module _ {M : Type 0} (p : Pthread M) where
  abbrev pub check : M × ℕ → Outcome M
  check (m, result) = if result == 0 then done m else aborted

  -- The constructor of `std::mutex` on Linux, the assignment of the static initializer on macOS and
  -- `pthread_mutex_init` on Windows.
  unfoldable pub construct : Platform → M → Outcome M
  construct linux m = done p.std_construct
  construct macos m = done p.initializer
  construct windows m = check (p.mutex_init m)

  -- The result of `pthread_mutex_destroy` is ignored.
  unfoldable pub destroy : Platform → M → M
  destroy linux m = p.std_destroy m
  destroy macos m = (p.mutex_destroy m).0
  destroy windows m = (p.mutex_destroy m).0

  -- `none`: the thread waits.
  unfoldable pub lock : ℕ → M → Option (Outcome M)
  lock i m = elim (p.mutex_lock i m) [ none ↦ none | some r ↦ some (check r) ]

  abbrev succeeds : M × ℕ → M × Bool
  succeeds (m, result) = (m, result == 0)

  unfoldable pub try_lock : Platform → ℕ → M → M × Bool
  try_lock linux i m = p.std_try_lock i m
  try_lock macos i m = succeeds (p.mutex_trylock i m)
  try_lock windows i m = succeeds (p.mutex_trylock i m)

  unfoldable pub unlock : ℕ → M → Outcome M
  unlock i m = check (p.mutex_unlock i m)

  -- The mutex, the threads between a lock that succeeded and their unlock, and whether the process
  -- has been aborted.
  pub record Threads : Type 0 where
    pub mutex : M
    pub inside : ℕ → Bool
    pub is_aborted : Bool

  abbrev pub enter : ℕ → (ℕ → Bool) → ℕ → Bool
  enter i inside j = if j == i then true else inside j

  abbrev pub leave : ℕ → (ℕ → Bool) → ℕ → Bool
  leave i inside j = if j == i then false else inside j

  -- The state after a call that gives the lock to thread `i`, or takes it back.
  abbrev pub after : Threads → (ℕ → Bool) → Outcome M → Threads
  after s inside (done m) = record { mutex = m; inside = inside; is_aborted = s.is_aborted }
  after s inside aborted = record s { is_aborted = true }

  -- Threads outside lock or try to, and threads inside unlock. A thread that waits takes no step.
  pub data Step (platform : Platform) (s : Threads) : Threads → Type 0 where
    locks :
        (i : ℕ) (r : Outcome M)
        → s.inside i ≡ false
        → lock i s.mutex ≡ some r
        → Step platform s (after s (enter i s.inside) r)
    tries :
        (i : ℕ)
        → s.inside i ≡ false
        → Step platform s (record s {
          mutex = (try_lock platform i s.mutex).0;
          inside = if (try_lock platform i s.mutex).1 then enter i s.inside else s.inside;
        })
    unlocks :
        (i : ℕ)
        → s.inside i ≡ true
        → Step platform s (after s (leave i s.inside) (unlock i s.mutex))

  pub data Reach (platform : Platform) (s : Threads) : Threads → Type 0 where
    here : Reach platform s s
    next : {t u : Threads} → Reach platform s t → Step platform t u → Reach platform s u
