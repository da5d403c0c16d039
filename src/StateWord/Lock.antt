-- ===== src/StateWord/Lock.antt =====
-- StateWord.cj, lines 301-327: threads that lock and unlock the word of one object.
use cjcj_runtime.Base.{
  ℕ, ◌≡◌, ◌≢◌, ◌⊎◌, refl, ◌∙◌, Bool, true, false, ◌==◌, if◌then◌else◌, ap, arith, inl, inr,
  Bool-cases,
}
use cjcj_runtime.Atomic.{Memory, read, write, u16_load, stateword_u16_cas, compare_exchange_value}
use cjcj_runtime.Atomic.Bytes.{read-write}
use cjcj_runtime.StateWord.{
  code_of, locked, state_address, atomic_get_state_bits, compare_exchange_state_bits,
  try_lock_state_word, is_locked_word, get_state_code, get_state_bits,
}

-- Where a thread is: outside; holding the lock; in `UnlockStateWord` with the state it has loaded;
-- or behind `RtFatal`.
pub data Phase : Type 0 where
  outside : Phase
  inside : Phase
  unlocking : ℕ → Phase
  rt_fatal : Phase

abbrev pub holds_word : Phase → Bool
holds_word outside = false
holds_word inside = true
holds_word (unlocking current) = true
holds_word rt_fatal = false

pub record Threads : Type 0 where
  pub memory : Memory
  pub phase : ℕ → Phase

abbrev pub set_phase : (ℕ → Phase) → ℕ → Phase → ℕ → Phase
set_phase f i p j = if j == i then p else f j

-- The load of `UnlockStateWord` with the test behind it.
unfoldable pub unlock_load : Memory → ℕ → Phase
unfolding atomic_get_state_bits state_address
unlock_load m p =
    let current = atomic_get_state_bits m (state_address p) in
    if code_of current == locked then unlocking current else rt_fatal

module _ (p : ℕ) where
  pub data Step (s : Threads) : Threads → Type 0 where
    -- `TryLockStateWord` with any state that the thread has seen, once or in a loop.
    tries :
        (i current : ℕ) (spurious : Bool)
        → s.phase i ≡ outside
        → Step s (record {
          memory = (try_lock_state_word spurious s.memory p current).0;
          phase =
              set_phase s.phase i
                (if (try_lock_state_word spurious s.memory p current).1 then inside else outside);
        })
    loads :
        (i : ℕ)
        → s.phase i ≡ inside
        → Step s (record s { phase = set_phase s.phase i (unlock_load s.memory p) })
    -- The compare-exchange of the loop. Where it fails the thread loads the state again.
    swaps :
        (i current new : ℕ) (spurious : Bool)
        → s.phase i ≡ unlocking current
        → Step s (record {
          memory = (compare_exchange_state_bits spurious s.memory (state_address p) current new).0;
          phase = set_phase s.phase i (
              if (compare_exchange_state_bits spurious s.memory (state_address p) current new).1
              then outside
              else inside);
        })
    -- Memory other than the state.
    elsewhere :
        (m : Memory)
        → read 2 m (state_address p) ≡ read 2 s.memory (state_address p)
        → Step s (record s { memory = m })

  pub data Reach (s : Threads) : Threads → Type 0 where
    here : Reach s s
    next : {t u : Threads} → Reach s t → Step t u → Reach s u

  record Inv (s : Threads) : Type 0 where
    alone : (i j : ℕ) → holds_word (s.phase i) ≡ true → holds_word (s.phase j) ≡ true → i ≡ j
    taken : (i : ℕ) → holds_word (s.phase i) ≡ true → read 2 s.memory (state_address p) ≡ locked
    never : (i : ℕ) → s.phase i ≢ rt_fatal

  -- A compare-exchange writes where it finds the expected state, or leaves the memory alone.
  swap-cases :
      (spurious : Bool) (m : Memory) (a current new : ℕ)
      → ((compare_exchange_state_bits spurious m a current new ≡ (write 2 m a new, true))
          × (read 2 m a ≡ current))
        ⊎ (compare_exchange_state_bits spurious m a current new ≡ (m, false))
  unfolding compare_exchange_state_bits stateword_u16_cas compare_exchange_value
  swap-cases true m a current new = inr refl
  swap-cases false m a current new = elim (Bool-cases (read 2 m a == current)) [
    | inl same ↦ inl (rw same refl, ground (arith, same))
    | inr other ↦ inr (rw other refl)
  ]

  -- A try succeeds only where the word is no lock, and makes it one.
  try-cases :
      (spurious : Bool) (m : Memory) (current : ℕ)
      → ((try_lock_state_word spurious m p current ≡ (write 2 m (state_address p) locked, true))
          × (code_of (read 2 m (state_address p)) ≢ locked))
        ⊎ (try_lock_state_word spurious m p current ≡ (m, false))
  unfolding try_lock_state_word
  try-cases spurious m current = elim (Bool-cases (code_of current == locked)) [
    | inl busy ↦ inr (rw busy refl)
    | inr free ↦ elim (swap-cases spurious m (state_address p) current locked) [
      | inr fails ↦ inr (rw free fails)
      | inl (written, same) ↦ inl (rw free written, λ e. ground (arith, free, same, e))
    ]
  ]

  unlock_load_lem :
      (m : Memory) → read 2 m (state_address p) ≡ locked → unlock_load m p ≡ unlocking locked
  unfolding unlock_load atomic_get_state_bits u16_load
  unlock_load_lem m e = rw e refl

  -- A thread takes the lock while nobody holds it, holds it on, or lets it go.
  Inv-takes :
      (s : Threads) (i : ℕ) (m : Memory)
      → Inv s
      → ((j : ℕ) → holds_word (s.phase j) ≡ true → ⊥)
      → read 2 m (state_address p) ≡ locked
      → Inv (record { memory = m; phase = set_phase s.phase i inside })
  Inv-takes s i m v nobody e = record {
    alone = λ j k a b. ground (arith, nobody j, nobody k);
    taken = λ j a. e;
    never = λ j a. ground (arith, v.never j);
  }

  Inv-holds :
      (s : Threads) (i : ℕ) (q : Phase)
      → Inv s
      → holds_word (s.phase i) ≡ true
      → holds_word q ≡ true
      → Inv (record s { phase = set_phase s.phase i q })
  Inv-holds s i q v h g = record {
    alone = λ j k a b. ground (arith, v.alone j k, v.alone i k, v.alone j i);
    taken = λ j a. v.taken i h;
    never = λ j a. ground (arith, v.never j);
  }

  Inv-leaves :
      (s : Threads) (i : ℕ) (m : Memory)
      → Inv s
      → holds_word (s.phase i) ≡ true
      → Inv (record { memory = m; phase = set_phase s.phase i outside })
  Inv-leaves s i m v h = record {
    alone = λ j k a b. ground (arith, v.alone j k);
    taken = λ j a. ground (arith, v.alone i j);
    never = λ j a. ground (arith, v.never j);
  }

  Inv-stays :
      (s : Threads) (i : ℕ)
      → Inv s
      → s.phase i ≡ outside
      → Inv (record s { phase = set_phase s.phase i outside })
  Inv-stays s i v out = record {
    alone = λ j k a b. ground (arith, v.alone j k);
    taken = λ j a. ground (arith, v.taken j);
    never = λ j a. ground (arith, v.never j);
  }

  Step-Inv : (s t : Threads) → Step s t → Inv s → Inv t
  Step-Inv s t (tries i current spurious out) v = elim (try-cases spurious s.memory current) [
    | inl (e, free) ↦ rw e (
        Inv-takes s i (write 2 s.memory (state_address p) locked) v
          (λ j h. free (ap code_of (v.taken j h))) (read-write 2 s.memory (state_address p) locked))
    | inr e ↦ rw e (Inv-stays s i v out)
  ]
  Step-Inv s t (loads i in_it) v =
      let held : holds_word (s.phase i) ≡ true = ap holds_word in_it in
      rw (unlock_load_lem s.memory (v.taken i held)) (Inv-holds s i (unlocking locked) v held refl)
  Step-Inv s t (swaps i current new spurious u) v =
      let held : holds_word (s.phase i) ≡ true = ap holds_word u in
      elim (swap-cases spurious s.memory (state_address p) current new) [
        | inl (e, same) ↦ rw e (Inv-leaves s i (write 2 s.memory (state_address p) new) v held)
        | inr e ↦ rw e (Inv-holds s i inside v held refl)
      ]
  Step-Inv s t (elsewhere m same) v = record {
    alone = v.alone;
    taken = λ i h. same ∙ v.taken i h;
    never = v.never;
  }

  Reach-Inv : {s t : Threads} → Reach s t → Inv s → Inv t
  Reach-Inv here v = v
  Reach-Inv (next {t} {u} r st) v = Step-Inv t u st (Reach-Inv r v)

  start-Inv : (s : Threads) → ((k : ℕ) → s.phase k ≡ outside) → Inv s
  start-Inv s first = record {
    alone = λ k l a b. cc (first k);
    taken = λ k a. cc (first k);
    never = λ k a. cc (first k);
  }

  -- Started with every thread outside, in every interleaving of tries and unlocks, with writes to the
  -- rest of memory between them: at most one thread holds the word, and while one does, the word
  -- says so.
  pub Reach-alone :
      (s t : Threads) (i j : ℕ)
      → ((k : ℕ) → s.phase k ≡ outside)
      → Reach s t
      → holds_word (t.phase i) ≡ true
      → holds_word (t.phase j) ≡ true
      → (i ≡ j) × (is_locked_word t.memory p ≡ true)
  unfolding is_locked_word get_state_code get_state_bits
  Reach-alone s t i j first r h g =
      let v = Reach-Inv r (start-Inv s first) in (v.alone i j h g, ground (arith, v.taken i h))

  -- In none of these interleavings an unlock ends in `RtFatal`.
  pub Reach-never :
      (s t : Threads) (i : ℕ) → ((k : ℕ) → s.phase k ≡ outside) → Reach s t → t.phase i ≢ rt_fatal
  Reach-never s t i first r = (Reach-Inv r (start-Inv s first)).never i
