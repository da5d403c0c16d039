-- ===== src/Locks/RwLock.antt =====
-- src/rt.base/RwLock.cj: a reader-writer lock in one 32-bit count, which is 0 when the lock is
-- free, -1 under a writer and the number of readers otherwise. A step is one atomic operation of
-- one thread; `sched_yield` is no step.
pub mod Exclusion
use cjcj_runtime.Base.{
  ℕ, ◌-◌, ◌^◌, ◌≡◌, ◌≢◌, Bool, List, ◌∷◌, ◌++◌, ltb, if◌then◌else◌, true, false, add32, sub32,
}

-- -1 as an `Int32`.
abbrev pub write_locked : ℕ
write_locked = 2 ^ 32 - 1

abbrev pub is_negative : ℕ → Bool
is_negative n = if ltb n (2 ^ 31) then false else true

-- Where a thread stands. A reader that has loaded a count keeps it up to its next attempt; after
-- a failed attempt it loads again. A writer that leaves is `releasing` between its check of the
-- count and its store of 0. `aborted` has ended the process.
pub data Pc : Type 0 where
  outside : Pc
  loaded : ℕ → Pc
  retrying : Pc
  reading : Pc
  writing : Pc
  releasing : Pc
  aborted : Pc

-- What one thread does to the count. `cj_atomic_i32_cas` succeeds exactly if the count is the
-- expected one.
pub data Move (count : ℕ) : Pc → ℕ → Pc → Type 0 where
  -- `LockRead` and `TryLockRead` begin by a load; `LockRead` loads again while a writer holds the
  -- lock, and both do after a failed attempt.
  load : Move count outside count (loaded count)
  spin : (c : ℕ) → c ≡ write_locked → Move count (loaded c) count (loaded count)
  reload : Move count retrying count (loaded count)
  -- `TryLockRead` gives up.
  refuse : (c : ℕ) → c ≡ write_locked → Move count (loaded c) count outside
  enter_read : (c : ℕ) → c ≢ write_locked → count ≡ c → Move count (loaded c) (add32 c 1) reading
  miss_read : (c : ℕ) → c ≢ write_locked → count ≢ c → Move count (loaded c) count retrying
  -- The attempt of `LockWrite` and `TryLockWrite`, from 0.
  enter_write : count ≡ 0 → Move count outside write_locked writing
  miss_write : count ≢ 0 → Move count outside count outside
  leave_read :
      (next : ℕ)
      → next ≡ sub32 count 1
      → Move count reading next (if is_negative count then aborted else outside)
  check_write : count ≡ write_locked → Move count writing count releasing
  leave_write : Move count releasing 0 outside
  fail_write : count ≢ write_locked → Move count writing count aborted

pub record System : Type 0 where
  pub count : ℕ
  pub threads : List Pc

-- One thread of the system moves.
pub data Step (s : System) : System → Type 0 where
  move :
      (before after : List Pc) (old new : Pc) (count : ℕ)
      → s.threads ≡ before ++ old ∷ after
      → Move s.count old count new
      → Step s (record { count = count; threads = before ++ new ∷ after })

pub data Reach (s : System) : System → Type 0 where
  here : Reach s s
  next : {t u : System} → Reach s t → Step t u → Reach s u
