-- ===== src/Tests/Storage.antt =====
-- Spin locks, semaphores and libraries over a system that is written down: its calls are functions.
use cjcj_runtime.Base.{
  ℕ, zero, suc, ◌+◌, ◌-◌, ◌≡◌, ◌≢◌, ◌==◌, if◌then◌else◌, refl, arith, Option, none, some, true,
  false,
}
use cjcj_runtime.Locks.Semaphore.{Return, eintr}
use cjcj_runtime.Locks.PthreadSpin.{
  PthreadSpins, ArePthreadSpins, spin_init_void, Spinners, set_inside, Reach, here, next, locks,
  spin_lock_void,
}
use cjcj_runtime.Locks.PthreadSpin.Exclusion.{spin_init_void-alone_inside}
use cjcj_runtime.Locks.Permits.{
  Semaphores, IsSemaphores, Users, Reach as Runs, here as starts, next as goes_on, tries_again,
  stops_trying, posts, try_wait, set_looping, begins, semaphore_init, semaphore_post,
}
use cjcj_runtime.Locks.Permits.Balance.{Reach-balance}
use cjcj_runtime.Loader.{Linker, IsLinker, linux, load_binary_file, unload_binary_file, count_more}
use cjcj_runtime.Loader.Open.{load_binary_file-unload_binary_file}

-- A lock is its holder.
abbrev lock_of : ℕ → Option (Option ℕ) → Option (Option (Option ℕ) × ℕ)
lock_of i none = none
lock_of i (some none) = some (some (some i), 0)
lock_of i (some (some j)) = none

abbrev trylock_of : ℕ → Option (Option ℕ) → Option (Option ℕ) × ℕ
trylock_of i none = (none, 22)
trylock_of i (some none) = (some (some i), 0)
trylock_of i (some (some j)) = (some (some j), 16)

abbrev spins : PthreadSpins (Option (Option ℕ))
spins = record {
  spin_init = λ m pshared. (some none, 0);
  spin_lock = lock_of;
  spin_trylock = trylock_of;
  spin_unlock = λ i m. (some none, 0);
  spin_destroy = λ m. (none, 0);
  holder = λ m. m;
}

spins-ArePthreadSpins : ArePthreadSpins spins
spins-ArePthreadSpins = record {
  init_free = λ m pshared e. refl;
  lock_free = λ i m e. (some (some i), ground (arith, e), refl);
  lock_held = λ i j m n e. ground (arith, e);
  trylock_free = λ i m e. (ground (arith, e), ground (arith, e));
  trylock_held = λ i j m e. (λ z. ground (arith, e, z), ground (arith, e));
  unlock_held = λ i m e. (refl, refl);
}

-- Thread 3 has taken the lock.
abbrev taken_by_3 : Spinners spins
taken_by_3 = record { spinlock = some (some 3); inside = set_inside spins (λ k. false) 3 true }

takes :
    Reach spins (record { spinlock = spin_init_void spins none; inside = λ k. false }) taken_by_3
unfolding spin_init_void spin_lock_void
takes = next here (locks 3 (some (some 3)) refl refl)

spin_init_void-alone_inside_example : ◌≡◌ {A = ℕ} 3 3
spin_init_void-alone_inside_example =
    spin_init_void-alone_inside spins spins-ArePthreadSpins none taken_by_3 3 3 refl takes refl refl

-- A semaphore is its value. The environment 0 lets a wait go on, any other interrupts it.
abbrev wait_of : ℕ → ℕ → Option (Return × ℕ)
wait_of zero zero = none
wait_of zero (suc n) = some (record { result = 0; errno = 0 }, n)
wait_of (suc e) n = some (record { result = 1; errno = eintr }, n)

abbrev permits : Semaphores ℕ
permits = record {
  sem_init = λ pshared v s. (0, v);
  sem_wait = wait_of;
  sem_post = λ s. (0, suc s);
  sem_destroy = λ s. (0, 0);
  value = λ s. s;
}

wait_of-takes : (e s t : ℕ) (r : Return) → wait_of e s ≡ some (r, t) → r.result ≡ 0 → s ≡ suc t
wait_of-takes zero zero t r h z = absurd (cc)
wait_of-takes zero (suc n) t r h z = ground (arith, h)
wait_of-takes (suc e) n t r h z = absurd (ground (arith, h))

wait_of-fails : (e s t : ℕ) (r : Return) → wait_of e s ≡ some (r, t) → r.result ≢ 0 → t ≡ s
wait_of-fails zero zero t r h z = absurd (cc)
wait_of-fails zero (suc n) t r h z = absurd (z (ground (arith, h)))
wait_of-fails (suc e) n t r h z = ground (arith, h)

permits-IsSemaphores : IsSemaphores permits
permits-IsSemaphores = record {
  init_value = λ pshared v s e. refl;
  wait_takes = wait_of-takes;
  wait_fails = wait_of-fails;
  post_adds = λ s e. refl;
  post_fails = λ s e. absurd (e refl);
}

-- One permit: thread 1 is interrupted in its wait, thread 2 posts, and thread 1 waits again.
abbrev one_wait : Users permits
one_wait = record {
  storage = 1;
  looping = set_looping permits (set_looping permits (λ k. false) 1 true) 1 false;
  passed = 1;
  posted = 1;
}

one_run : Runs permits (begins permits 1) one_wait
unfolding try_wait semaphore_post
one_run =
    goes_on (goes_on (goes_on starts (tries_again 1 9 1 refl)) (posts 2 refl))
      (stops_trying 1 0 0 1 refl)

Reach-balance_example : ◌≡◌ {A = ℕ} (1 + 1) (1 + 1)
unfolding semaphore_init
Reach-balance_example = Reach-balance permits permits-IsSemaphores 0 1 7 one_wait refl one_run

-- A linker that counts, and gives every library the handler 7.
abbrev one_less : (ℕ → ℕ) → ℕ → ℕ → ℕ
one_less f h k = if k == h then f k - 1 else f k

abbrev linker : Linker (ℕ → ℕ)
linker = record {
  dlopen = λ path s. (7, count_more s 7);
  dlclose = λ h s. (0, one_less s h);
  dlsym = λ s h name. 0;
  dladdr = λ s a. (0, record { dli_fname = none; dli_sname = none });
  load_library = λ path s. (7, count_more s 7);
  free_library = λ h s. (1, one_less s h);
  get_proc_address = λ s h name. 0;
  open_count = λ s. s;
}

linker-IsLinker : IsLinker linker
linker-IsLinker = record {
  dlopen_counts = λ path s k e. refl;
  dlclose_counts = λ h s k p. (refl, ground arith);
  load_library_counts = λ path s k e. refl;
  free_library_counts = λ h s k p. (omega arith, ground arith);
}

load_binary_file-unload_binary_file_example :
    ((unload_binary_file linker linux 7 (count_more (λ k. 0) 7)).0 ≡ 0)
    × ((unload_binary_file linker linux 7 (count_more (λ k. 0) 7)).1 7 ≡ 0)
unfolding load_binary_file
load_binary_file-unload_binary_file_example =
    load_binary_file-unload_binary_file linker linker-IsLinker linux (some "libcangjie.so") (λ k. 0)
      7 (omega arith)
