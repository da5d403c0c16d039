-- ===== src/Locks/PagePoolMutex/Exclusion.antt =====
-- The mutex of the page pool on every platform: who is inside.
use cjcj_runtime.Base.{
  ℕ, ◌≡◌, ◌⊎◌, inl, inr, refl, sym, ◌∙◌, true, false, ◌&&◌, if◌then◌else◌, Option, none, some,
  arith, Bool-cases,
}
use cjcj_runtime.Locks.PagePoolMutex.{
  Platform, linux, macos, windows, Pthread, IsPthread, Outcome, done, construct, lock, try_lock,
  unlock, Threads, enter, leave, Step, locks, tries, unlocks, Reach, here, next,
}

module _ {M : Type 0} (p : Pthread M) (law : IsPthread p) where
  record Inv (s : Threads p) : Type 0 where
    holds : (h : Option ℕ) × (p.holder s.mutex ≡ some h)
    owner : (i : ℕ) → s.inside i ≡ true → p.holder s.mutex ≡ some (some i)
    alive : s.is_aborted ≡ false

  -- Whoever locks finds the mutex free, and then holds it.
  lock_lem :
      (i : ℕ) (m : M) (h : Option ℕ) (r : Outcome M)
      → p.holder m ≡ some h
      → lock p i m ≡ some r
      → (k : M) × (r ≡ done k) × (h ≡ none) × (p.holder k ≡ some (some i))
  unfolding lock
  lock_lem i m none r e q = let (k, f, g) = law.lock_free i m e in (k, ground arith, refl, g)
  lock_lem i m (some j) r e q = absurd (ground (arith, law.lock_held i j m e))

  -- Taking a free mutex keeps the invariant.
  enters :
      (s : Threads p) (i : ℕ) (k : M)
      → Inv s
      → p.holder s.mutex ≡ some none
      → p.holder k ≡ some (some i)
      → Inv (record { mutex = k; inside = enter p i s.inside; is_aborted = s.is_aborted })
  enters s i k v free o = record {
    holds = (some i, o);
    owner = λ j a. ground (arith, v.owner j);
    alive = v.alive;
  }

  unlock_lem :
      (i : ℕ) (m : M)
      → p.holder m ≡ some (some i)
      → (k : M) × (unlock p i m ≡ done k) × (p.holder k ≡ some none)
  unfolding unlock
  unlock_lem i m e = let (z, f) = law.unlock_held i m e in ((p.mutex_unlock i m).0, ground arith, f)

  try_lock_free :
      (platform : Platform) (i : ℕ) (m : M)
      → p.holder m ≡ some none
      → ((try_lock p platform i m).1 ≡ true)
        × (p.holder (try_lock p platform i m).0 ≡ some (some i))
  unfolding try_lock
  try_lock_free linux i m e = law.std_try_lock_free i m e
  try_lock_free macos i m e = let (z, f) = law.trylock_free i m e in (ground arith, f)
  try_lock_free windows i m e = let (z, f) = law.trylock_free i m e in (ground arith, f)

  try_lock_held :
      (platform : Platform) (i j : ℕ) (m : M)
      → p.holder m ≡ some (some j)
      → ((try_lock p platform i m).1 ≡ false)
        × (p.holder (try_lock p platform i m).0 ≡ some (some j))
  unfolding try_lock
  try_lock_held linux i j m e = law.std_try_lock_held i j m e
  try_lock_held macos i j m e = let (z, f) = law.trylock_held i j m e in (ground arith, f)
  try_lock_held windows i j m e = let (z, f) = law.trylock_held i j m e in (ground arith, f)

  -- The state after `tries`, for a mutex that somebody holds or not.
  tries_lem :
      (platform : Platform) (s : Threads p) (i : ℕ) (h : Option ℕ)
      → p.holder s.mutex ≡ some h
      → Inv s
      → Inv (record s {
        mutex = (try_lock p platform i s.mutex).0;
        inside = if (try_lock p platform i s.mutex).1 then enter p i s.inside else s.inside;
      })
  tries_lem platform s i none e v =
      let (b, o) = try_lock_free platform i s.mutex e in
      rw b (enters s i (try_lock p platform i s.mutex).0 v e o)
  tries_lem platform s i (some j) e v =
      let (b, o) = try_lock_held platform i j s.mutex e in
      rw b (record { holds = (some j, o); owner = λ k a. o ∙ sym e ∙ v.owner k a; alive = v.alive })

  leaves :
      (s : Threads p) (i : ℕ) (k : M)
      → Inv s
      → s.inside i ≡ true
      → p.holder k ≡ some none
      → Inv (record { mutex = k; inside = leave p i s.inside; is_aborted = s.is_aborted })
  leaves s i k v in_it o = record {
    holds = (none, o);
    owner = λ j a. ground (arith, v.owner j, v.owner i in_it);
    alive = v.alive;
  }

  Step-Inv : (platform : Platform) (s t : Threads p) → Step p platform s t → Inv s → Inv t
  Step-Inv platform s t (locks i r out e) v =
      let (h, e') = v.holds in
      let (k, f, g, o) = lock_lem i s.mutex h r e' e in rw f (enters s i k v (cc (e', g)) o)
  Step-Inv platform s t (tries i out) v = tries_lem platform s i v.holds.0 v.holds.1 v
  Step-Inv platform s t (unlocks i in_it) v =
      let (k, f, o) = unlock_lem i s.mutex (v.owner i in_it) in rw f (leaves s i k v in_it o)

  Reach-Inv : {platform : Platform} {s t : Threads p} → Reach p platform s t → Inv s → Inv t
  Reach-Inv here v = v
  Reach-Inv {platform} (next {t} {u} r st) v = Step-Inv platform t u st (Reach-Inv r v)

  construct-free :
      (platform : Platform) (m k : M) → construct p platform m ≡ done k → p.holder k ≡ some none
  unfolding construct
  construct-free linux m k e = ground (arith, law.std_construct_free)
  construct-free macos m k e = ground (arith, law.initializer_free)
  construct-free windows m k e = ground (arith, law.init_free m)

  -- On each platform, after a constructor that returned a mutex, in every interleaving of any
  -- number of threads that lock, try to lock and unlock what they have locked: at most one thread
  -- is inside, and no call has aborted the process.
  pub construct-alone_inside :
      (platform : Platform) (m k : M) (t : Threads p) (i j : ℕ)
      → construct p platform m ≡ done k
      → Reach p platform (record { mutex = k; inside = λ i. false; is_aborted = false }) t
      → (t.is_aborted ≡ false) × ((i ≡ j) ⊎ ((t.inside i && t.inside j) ≡ false))
  construct-alone_inside platform m k t i j e r =
      let v = Reach-Inv r first in
      (
        v.alive,
        elim (Bool-cases (t.inside i && t.inside j)) [
          | inl both ↦ inl (ground (arith, v.owner i, v.owner j))
          | inr apart ↦ inr apart
        ],
      )
    where
      first : Inv (record { mutex = k; inside = λ i. false; is_aborted = false })
      first = record {
        holds = (none, construct-free platform m k e);
        owner = λ i a. ground arith;
        alive = refl;
      }
