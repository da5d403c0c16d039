-- ===== src/Locks/Semaphore.antt =====
-- rt0/os/Linux/CJThreadSemaphore.cpp: the semaphores of the scheduler over those of the system. An
-- `int` result is its bit pattern.
use cjcj_runtime.Base.{
  ℕ, ◌≡◌, ◌≢◌, ◌⊎◌, inl, inr, refl, Bool, ◌==◌, ◌&&◌, not, if◌then◌else◌, List, [], ◌∷◌, ◌++◌,
  Option, none, some, arith, All, Bool-cases, ap,
}

abbrev pub eintr : ℕ
eintr = 4

-- One return of `sem_wait`: its result, and `errno` right after it.
pub record Return : Type 0 where
  pub result : ℕ
  pub errno : ℕ

abbrev pub is_interrupted : Return → Bool
is_interrupted r = not (r.result == 0) && r.errno == eintr

-- `cj_cjthread_semaphore_wait_no_intr`, on the returns of its calls of `sem_wait` in turn. `some`
-- has the result and the returns that are not used; `none`: the last call has not returned yet.
unfoldable pub semaphore_wait_no_intr : List Return → Option (ℕ × List Return)
semaphore_wait_no_intr [] = none
semaphore_wait_no_intr (r ∷ rs) =
    if is_interrupted r then semaphore_wait_no_intr rs else some (r.result, rs)

-- A return that is handed to the caller, and what stands before and after it.
pub record Split (rs : List Return) : Type 0 where
  pub before : List Return
  pub last : Return
  pub after : List Return
  pub whole : rs ≡ before ++ last ∷ after
  pub interrupted : All (λ r. (r.result ≢ 0) × (r.errno ≡ eintr)) before
  pub final : (last.result ≡ 0) ⊎ (last.errno ≢ eintr)

-- The wait is over exactly if some return is a success or another error than an interruption. Its
-- result is then the first such return, after as many retries as there were interruptions.
pub semaphore_wait_no_intr-Split :
    (rs : List Return)
    → ((s : Split rs) × (semaphore_wait_no_intr rs ≡ some (s.last.result, s.after)))
      ⊎ (All (λ r. (r.result ≢ 0) × (r.errno ≡ eintr)) rs × (semaphore_wait_no_intr rs ≡ none))
unfolding semaphore_wait_no_intr
semaphore_wait_no_intr-Split [] = inr (tt, refl)
semaphore_wait_no_intr-Split (r ∷ rs) = elim (Bool-cases (is_interrupted r)) [
  | inr final ↦ inl (
    record {
      before = [];
      last = r;
      after = rs;
      whole = refl;
      interrupted = tt;
      final = ground arith;
    },
    rw final refl,
  )
  | inl again ↦ elim (semaphore_wait_no_intr-Split rs) [
    | inl (s, e) ↦ inl (
      record {
        before = r ∷ s.before;
        last = s.last;
        after = s.after;
        whole = ap (◌∷◌ r) s.whole;
        interrupted = (ground arith, s.interrupted);
        final = s.final;
      },
      rw again e,
    )
    | inr (all, e) ↦ inr (((ground arith), all), rw again e)
  ]
]
