-- ===== src/Locks/PthreadSpin.antt =====
-- src/rt.base/SpinLock.cj over rt0/os/Linux/SpinLock.cpp, and rt0/os/Linux/CJThreadSpinLock.cpp: the
-- spin locks of pthread in storage that the Cangjie side owns. The runtime's calls drop the results
-- of pthread, the scheduler's return them.
pub mod Exclusion
use cjcj_runtime.Base.{ℕ, ◌≡◌, ◌≢◌, Bool, true, false, ◌==◌, if◌then◌else◌, Option, none, some}

-- The calls of pthread on the storage `M`, for a thread where it matters. A result of 0 is success.
-- `spin_lock` is `none` as long as the thread spins.
pub record PthreadSpins (M : Type 0) : Type 0 where
  pub spin_init : M → ℕ → M × ℕ
  pub spin_lock : ℕ → M → Option (M × ℕ)
  pub spin_trylock : ℕ → M → M × ℕ
  pub spin_unlock : ℕ → M → M × ℕ
  pub spin_destroy : M → M × ℕ
  -- Who holds the lock, `some none` if nobody does; `none` if the storage is no lock.
  pub holder : M → Option (Option ℕ)

-- What POSIX says of the calls of threads that do not lock what they hold.
pub record ArePthreadSpins {M : Type 0} (p : PthreadSpins M) : Type 0 where
  pub init_free :
      (m : M) (pshared : ℕ)
      → (p.spin_init m pshared).1 ≡ 0
      → p.holder (p.spin_init m pshared).0 ≡ some none
  pub lock_free :
      (i : ℕ) (m : M)
      → p.holder m ≡ some none
      → (k : M) × (p.spin_lock i m ≡ some (k, 0)) × (p.holder k ≡ some (some i))
  pub lock_held : (i j : ℕ) (m : M) → i ≢ j → p.holder m ≡ some (some j) → p.spin_lock i m ≡ none
  pub trylock_free :
      (i : ℕ) (m : M)
      → p.holder m ≡ some none
      → ((p.spin_trylock i m).1 ≡ 0) × (p.holder (p.spin_trylock i m).0 ≡ some (some i))
  pub trylock_held :
      (i j : ℕ) (m : M)
      → p.holder m ≡ some (some j)
      → ((p.spin_trylock i m).1 ≢ 0) × (p.holder (p.spin_trylock i m).0 ≡ some (some j))
  pub unlock_held :
      (i : ℕ) (m : M)
      → p.holder m ≡ some (some i)
      → ((p.spin_unlock i m).1 ≡ 0) × (p.holder (p.spin_unlock i m).0 ≡ some none)

-- `PTHREAD_PROCESS_PRIVATE`.
abbrev pub process_private : ℕ
process_private = 0

module _ {M : Type 0} (p : PthreadSpins M) where
  -- The calls of the scheduler.
  unfoldable pub cjthread_spin_init : M → M × ℕ
  cjthread_spin_init m = p.spin_init m process_private

  unfoldable pub cjthread_spin_lock : ℕ → M → Option (M × ℕ)
  cjthread_spin_lock i m = p.spin_lock i m

  unfoldable pub cjthread_spin_unlock : ℕ → M → M × ℕ
  cjthread_spin_unlock i m = p.spin_unlock i m

  unfoldable pub cjthread_spin_destroy : M → M × ℕ
  cjthread_spin_destroy m = p.spin_destroy m

  -- The calls of the runtime.
  unfoldable pub spin_init_void : M → M
  spin_init_void m = (p.spin_init m process_private).0

  unfoldable pub spin_lock_void : ℕ → M → Option M
  spin_lock_void i m = elim (p.spin_lock i m) [ none ↦ none | some r ↦ some r.0 ]

  unfoldable pub spin_unlock_void : ℕ → M → M
  spin_unlock_void i m = (p.spin_unlock i m).0

  unfoldable pub spin_try_lock : ℕ → M → M × ℕ
  spin_try_lock i m = p.spin_trylock i m

  -- `TryLock` of `SpinLock`.
  unfoldable pub try_lock : ℕ → M → M × Bool
  unfolding spin_try_lock
  try_lock i m = let (k, result) = spin_try_lock i m in (k, result == 0)

  -- The lock, and the threads between their lock and their unlock.
  pub record Spinners : Type 0 where
    pub spinlock : M
    pub inside : ℕ → Bool

  abbrev pub set_inside : (ℕ → Bool) → ℕ → Bool → ℕ → Bool
  set_inside f i b j = if j == i then b else f j

  -- A thread of the runtime goes on after `Lock` whatever pthread has returned. One of the scheduler
  -- is inside only if it got 0.
  pub data Step (s : Spinners) : Spinners → Type 0 where
    locks :
        (i : ℕ) (m : M)
        → s.inside i ≡ false
        → spin_lock_void i s.spinlock ≡ some m
        → Step s (record { spinlock = m; inside = set_inside s.inside i true })
    scheduler_locks :
        (i result : ℕ) (m : M)
        → s.inside i ≡ false
        → cjthread_spin_lock i s.spinlock ≡ some (m, result)
        → Step s (record { spinlock = m; inside = set_inside s.inside i (result == 0) })
    tries :
        (i : ℕ)
        → s.inside i ≡ false
        → Step s (record {
          spinlock = (try_lock i s.spinlock).0;
          inside = set_inside s.inside i (try_lock i s.spinlock).1;
        })
    unlocks :
        (i : ℕ)
        → s.inside i ≡ true
        → Step s (record {
          spinlock = spin_unlock_void i s.spinlock;
          inside = set_inside s.inside i false;
        })
    scheduler_unlocks :
        (i : ℕ)
        → s.inside i ≡ true
        → Step s (record {
          spinlock = (cjthread_spin_unlock i s.spinlock).0;
          inside = set_inside s.inside i false;
        })

  pub data Reach (s : Spinners) : Spinners → Type 0 where
    here : Reach s s
    next : {t u : Spinners} → Reach s t → Step t u → Reach s u
