-- ===== src/Locks/PthreadSpin/Exclusion.antt =====
-- The spin locks of pthread: who is inside.
use cjcj_runtime.Base.{
  ℕ, ◌≡◌, ◌≢◌, sym, ap, ◌∙◌, true, false, ◌==◌, Option, none, some, arith, inl, inr, Option-cases,
}
use cjcj_runtime.Locks.PthreadSpin.{
  PthreadSpins, ArePthreadSpins, process_private, cjthread_spin_lock, cjthread_spin_unlock,
  spin_init_void, spin_lock_void, spin_unlock_void, spin_try_lock, try_lock, Spinners, set_inside,
  Step, locks, scheduler_locks, tries, unlocks, scheduler_unlocks, Reach, here, next,
}

module _ {M : Type 0} (p : PthreadSpins M) (law : ArePthreadSpins p) where
  record Inv (s : Spinners p) : Type 0 where
    holds : (h : Option ℕ) × (p.holder s.spinlock ≡ some h)
    owner : (i : ℕ) → s.inside i ≡ true → p.holder s.spinlock ≡ some (some i)
    present : (i : ℕ) → p.holder s.spinlock ≡ some (some i) → s.inside i ≡ true

  -- A lock that returns has found the lock free, has returned 0 and gives the lock to its thread.
  spin_lock_lem :
      (s : Spinners p) (i result : ℕ) (m : M)
      → Inv s
      → s.inside i ≡ false
      → p.spin_lock i s.spinlock ≡ some (m, result)
      → (p.holder s.spinlock ≡ some none) × (p.holder m ≡ some (some i)) × (result ≡ 0)
  spin_lock_lem s i result m v out e = by_holder v.holds.0 v.holds.1
    where
      by_holder :
          (h : Option ℕ)
          → p.holder s.spinlock ≡ some h
          → (p.holder s.spinlock ≡ some none) × (p.holder m ≡ some (some i)) × (result ≡ 0)
      by_holder none f =
          let (k, g, o) = law.lock_free i s.spinlock f in
          let same : k ≡ m = cc (g, e) in
          let zero_result : result ≡ 0 = cc (g, e) in (f, ap p.holder (sym same) ∙ o, zero_result)
      by_holder (some j) f =
          let other : i ≢ j = λ q. cc (v.present j f, out, q) in
          absurd (cc (law.lock_held i j s.spinlock other f, e))

  Inv-enters :
      (s : Spinners p) (i : ℕ) (m : M)
      → Inv s
      → p.holder s.spinlock ≡ some none
      → p.holder m ≡ some (some i)
      → Inv (record { spinlock = m; inside = set_inside p s.inside i true })
  Inv-enters s i m v free o = record {
    holds = (some i, o);
    owner = λ j a. ground (arith, v.owner j);
    present = λ j a. ground arith;
  }

  Inv-leaves :
      (s : Spinners p) (i : ℕ) (m : M)
      → Inv s
      → s.inside i ≡ true
      → p.holder m ≡ some none
      → Inv (record { spinlock = m; inside = set_inside p s.inside i false })
  Inv-leaves s i m v in_it o = record {
    holds = (none, o);
    owner = λ j a. ground (arith, v.owner j, v.owner i in_it);
    present = λ j a. absurd (cc (a, o));
  }

  Inv-stays :
      (s : Spinners p) (i j : ℕ) (m : M)
      → Inv s
      → s.inside i ≡ false
      → p.holder s.spinlock ≡ some (some j)
      → p.holder m ≡ some (some j)
      → Inv (record { spinlock = m; inside = set_inside p s.inside i false })
  Inv-stays s i j m v out old o = record {
    holds = (some j, o);
    owner = λ k a. ground (arith, v.owner k);
    present = λ k a. ground (arith, v.present k);
  }

  tries_lem :
      (s : Spinners p) (i : ℕ) (h : Option ℕ)
      → p.holder s.spinlock ≡ some h
      → Inv s
      → s.inside i ≡ false
      → Inv (record {
        spinlock = (try_lock p i s.spinlock).0;
        inside = set_inside p s.inside i (try_lock p i s.spinlock).1;
      })
  unfolding try_lock spin_try_lock
  tries_lem s i none e v out =
      let (z, o) = law.trylock_free i s.spinlock e in
      let success : ((p.spin_trylock i s.spinlock).1 == 0) ≡ true = ground (arith, z) in
      rw success (Inv-enters s i (p.spin_trylock i s.spinlock).0 v e o)
  tries_lem s i (some j) e v out =
      let (z, o) = law.trylock_held i j s.spinlock e in
      let failure : ((p.spin_trylock i s.spinlock).1 == 0) ≡ false = ground (arith, z) in
      rw failure (Inv-stays s i j (p.spin_trylock i s.spinlock).0 v out e o)

  Step-Inv : (s t : Spinners p) → Step p s t → Inv s → Inv t
  unfolding spin_lock_void cjthread_spin_lock spin_unlock_void cjthread_spin_unlock
  Step-Inv s t (locks i m out e) v = elim (Option-cases (p.spin_lock i s.spinlock)) [
    | inl spins ↦ absurd (ground (arith, spins, e))
    | inr ((k, result), returned) ↦
        let same : k ≡ m = ground (arith, returned, e) in
        let (free, o, z) = spin_lock_lem s i result k v out returned in
        Inv-enters s i m v free (ap p.holder (sym same) ∙ o)
  ]
  Step-Inv s t (scheduler_locks i result m out e) v =
      let (free, o, z) = spin_lock_lem s i result m v out e in rw z (Inv-enters s i m v free o)
  Step-Inv s t (tries i out) v = tries_lem s i v.holds.0 v.holds.1 v out
  Step-Inv s t (unlocks i in_it) v =
      let (z, o) = law.unlock_held i s.spinlock (v.owner i in_it) in
      Inv-leaves s i (p.spin_unlock i s.spinlock).0 v in_it o
  Step-Inv s t (scheduler_unlocks i in_it) v =
      let (z, o) = law.unlock_held i s.spinlock (v.owner i in_it) in
      Inv-leaves s i (p.spin_unlock i s.spinlock).0 v in_it o

  Reach-Inv : {s t : Spinners p} → Reach p s t → Inv s → Inv t
  Reach-Inv here v = v
  Reach-Inv (next {t} {u} r st) v = Step-Inv t u st (Reach-Inv r v)

  -- After an initialisation for which pthread has returned 0, in every interleaving of threads of the
  -- runtime, which never look at the result of a lock, and threads of the scheduler, at most one
  -- thread is inside the lock.
  pub spin_init_void-alone_inside :
      (m : M) (t : Spinners p) (i j : ℕ)
      → (p.spin_init m process_private).1 ≡ 0
      → Reach p (record { spinlock = spin_init_void p m; inside = λ k. false }) t
      → t.inside i ≡ true
      → t.inside j ≡ true
      → i ≡ j
  unfolding spin_init_void
  spin_init_void-alone_inside m t i j ok r a b =
      let v = Reach-Inv r first in cc (v.owner i a, v.owner j b)
    where
      first : Inv (record { spinlock = (p.spin_init m process_private).0; inside = λ k. false })
      first = record {
        holds = (none, law.init_free m process_private ok);
        owner = λ k c. absurd (cc c);
        present = λ k c. absurd (cc (c, law.init_free m process_private ok));
      }
