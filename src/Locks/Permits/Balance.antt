-- ===== src/Locks/Permits/Balance.antt =====
-- rt0/os/Linux/CJThreadSemaphore.cpp: the count of a semaphore in all runs of its users.
use cjcj_runtime.Base.{
  ℕ, ◌+◌, ◌≡◌, ◌≢◌, ◌==◌, List, [], ◌∷◌, some, true, arith, Bool-cases, Option-cases, inl, inr,
  refl,
}
use cjcj_runtime.Locks.Semaphore.{Return, is_interrupted}
use cjcj_runtime.Locks.Permits.{
  Semaphores, IsSemaphores, semaphore_init, semaphore_wait, wait_no_intr, semaphore_post, Users,
  one_if_zero, Step, waits, tries_again, stops_trying, posts, Reach, here, next, LoopEnd, again,
  returns, try_wait, set_looping, begins,
}

module _ {S : Type 0} (x : Semaphores S) (law : IsSemaphores x) where
  abbrev permits_of : LoopEnd → ℕ
  permits_of again = 0
  permits_of (returns result) = one_if_zero x result

  -- One wait of the system that returns.
  sem_wait_lem :
      (e : ℕ) (s t : S) (r : Return)
      → x.sem_wait e s ≡ some (r, t)
      → one_if_zero x r.result + x.value t ≡ x.value s
  sem_wait_lem e s t r h = elim (Bool-cases (r.result == 0)) [
    | inl success ↦
        let z : r.result ≡ 0 = ground (arith, success) in
        ground (arith, success, law.wait_takes e s t r h z)
    | inr failure ↦
        let z : r.result ≢ 0 = λ q. ground (arith, failure, q) in
        ground (arith, failure, law.wait_fails e s t r h z)
  ]

  -- A round that goes on takes no permit, and the last one takes one if it returns 0.
  try_wait_lem :
      (e : ℕ) (s t : S) (o : LoopEnd)
      → try_wait x e s ≡ some (o, t)
      → permits_of o + x.value t ≡ x.value s
  unfolding try_wait
  try_wait_lem e s t o h = elim (Option-cases (x.sem_wait e s)) [
    | inl waiting ↦ absurd (ground (arith, waiting))
    | inr ((r, u), returned) ↦
        let step = sem_wait_lem e s u r returned in
        elim (Bool-cases (is_interrupted r)) [
          | inl interrupted ↦
              let failed : one_if_zero x r.result ≡ 0 = ground (arith, interrupted) in
              ground (arith, returned, interrupted, h, step, failed)
          | inr final ↦ ground (arith, returned, final, h, step)
        ]
  ]

  semaphore_wait_lem :
      (e : ℕ) (s t : S) (result : ℕ)
      → semaphore_wait x e s ≡ some (result, t)
      → one_if_zero x result + x.value t ≡ x.value s
  unfolding semaphore_wait
  semaphore_wait_lem e s t result h = elim (Option-cases (x.sem_wait e s)) [
    | inl waiting ↦ absurd (ground (arith, waiting))
    | inr ((r, u), returned) ↦ ground (arith, returned, sem_wait_lem e s u r returned, h)
  ]

  post_lem :
      (s : S) → x.value (semaphore_post x s).1 ≡ one_if_zero x (semaphore_post x s).0 + x.value s
  unfolding semaphore_post
  post_lem s = elim (Bool-cases ((x.sem_post s).0 == 0)) [
    | inl success ↦ ground (arith, success, law.post_adds s (ground (arith, success)))
    | inr failure ↦
        let z : (x.sem_post s).0 ≢ 0 = λ q. ground (arith, failure, q) in
        ground (arith, failure, law.post_fails s z)
  ]

  Step-balance :
      (u v : Users x) (n : ℕ)
      → Step x u v
      → u.passed + x.value u.storage ≡ n + u.posted
      → v.passed + x.value v.storage ≡ n + v.posted
  Step-balance u v n (waits i e result t free h) b =
      omega (arith, b, semaphore_wait_lem e u.storage t result h)
  Step-balance u v n (tries_again i e t h) b = omega (arith, b, try_wait_lem e u.storage t again h)
  Step-balance u v n (stops_trying i e result t h) b =
      omega (arith, b, try_wait_lem e u.storage t (returns result) h)
  Step-balance u v n (posts i free) b = omega (arith, b, post_lem u.storage)

  Reach-steps :
      {u v : Users x} (n : ℕ)
      → u.passed + x.value u.storage ≡ n + u.posted
      → Reach x u v
      → v.passed + x.value v.storage ≡ n + v.posted
  Reach-steps n b here = b
  Reach-steps n b (next {v} {w} r st) = Step-balance v w n st (Reach-steps n b r)

  -- After an initialisation with `n` permits that returned 0, in every interleaving of the calls of
  -- `sem_wait` and `sem_post`, those of the loops of uninterrupted waits included: as many waits have
  -- returned 0 as there were permits and posts that returned 0, less the value that is left. A wait
  -- that was interrupted, and one that failed, has taken no permit.
  pub Reach-balance :
      (pshared n : ℕ) (s : S) (v : Users x)
      → (semaphore_init x s pshared n).0 ≡ 0
      → Reach x (begins x (semaphore_init x s pshared n).1) v
      → v.passed + x.value v.storage ≡ n + v.posted
  unfolding semaphore_init
  Reach-balance pshared n s v ok r = Reach-steps n (omega (arith, law.init_value pshared n s ok)) r

-- A thread that is alone in the loop makes the steps of the loop.
module _ {S : Type 0} (x : Semaphores S) where
  after_step : {u v w : Users x} → Step x u v → Reach x v w → Reach x u w
  after_step st here = next here st
  after_step st (next r q) = next (after_step st r) q

  pub wait_no_intr-Reach :
      (i : ℕ) (es : List ℕ) (u : Users x) (result : ℕ) (t : S)
      → wait_no_intr x es u.storage ≡ some (result, t)
      → (v : Users x) × Reach x u v
        × (v.storage ≡ t)
        × (v.passed ≡ one_if_zero x result + u.passed)
        × (v.posted ≡ u.posted)
  unfolding wait_no_intr
  wait_no_intr-Reach i [] u result t h = absurd (cc)
  wait_no_intr-Reach i (e ∷ es) u result t h = elim (Option-cases (try_wait x e u.storage)) [
    | inl waiting ↦ absurd (ground (arith, waiting))
    | inr ((again, s), tried) ↦
        let (v, r, a, b, c) =
          wait_no_intr-Reach i es
            (record u { storage = s; looping = set_looping x u.looping i true }) result t
            (ground (arith, tried, h)) in
        (v, after_step (tries_again i e s tried) r, a, b, c)
    | inr ((returns n, s), tried) ↦ (
      _,
      next here (stops_trying i e n s tried),
      ground (arith, tried, h),
      ground (arith, tried, h),
      refl,
    )
  ]
