-- ===== src/Bridge/Saferegion.antt =====
-- rt0/ScopedSaferegion.cpp, lines 16-36: the two halves of ScopedEnterSaferegion. The runtime's
-- mutator is a parameter.
use cjcj_runtime.Base.{
  Bool, true, false, not, Option, none, some, ◌≡◌, refl, arith, if◌then◌else◌, ◌∙◌, Bool-cases, inl,
  inr, sym, ap,
}

-- The mutator of a thread in some state `S`: `EnterSaferegion` and `LeaveSaferegion` tell whether
-- they changed it.
pub record Mutator (S : Type 0) : Type 0 where
  pub in_saferegion : S → Bool
  pub enter_saferegion : Bool → S → S × Bool
  pub leave_saferegion : S → S × Bool

-- What the code relies on: to enter succeeds outside a safe region alone, and after it the mutator
-- is inside; after leaving it is outside.
pub record IsMutator {S : Type 0} (m : Mutator S) : Type 0 where
  pub enters : (u : Bool) (s : S) → (m.enter_saferegion u s).1 ≡ not (m.in_saferegion s)
  pub entered : (u : Bool) (s : S) → m.in_saferegion (m.enter_saferegion u s).0 ≡ true
  pub left : (s : S) → m.in_saferegion (m.leave_saferegion s).0 ≡ false

-- `FP_THREAD`, `GC_THREAD`, and the other values of `ThreadType`.
pub data ThreadType : Type 0 where
  fp_thread gc_thread other_thread : ThreadType

-- What `GetThreadType` and `GetMutator` see of the current thread; `none` is a null mutator.
pub record Thread (S : Type 0) : Type 0 where
  pub thread_type : ThreadType
  pub mutator : Option S

abbrev pub is_exempt : ThreadType → Bool
is_exempt fp_thread = true
is_exempt gc_thread = true
is_exempt other_thread = false

-- Scopes that a thread goes through, each with the scopes inside it and those after it.
pub data Scopes : Type 0 where
  idle : Scopes
  scope : Scopes → Scopes → Scopes

module _ {S : Type 0} (m : Mutator S) where
  -- The branch of `OnlyMutatorBegin` on the mutator.
  unfoldable pub enter_mutator : Option S → Option S × Bool
  enter_mutator none = (none, false)
  enter_mutator (some s) = let (s', changed) = m.enter_saferegion true s in (some s', changed)

  -- `CJRT_ScopedEnterSaferegionOnlyMutatorBegin`.
  unfoldable pub scope_begin : Thread S → Thread S × Bool
  unfolding enter_mutator
  scope_begin t =
      let (mutator', changed) = enter_mutator t.mutator in
      if is_exempt t.thread_type then (t, false) else (record t { mutator = mutator' }, changed)

  -- `LeaveSaferegion` on the mutator; `none` is a call through a null pointer.
  unfoldable pub leave_mutator : Thread S → Option S → Option (Thread S)
  leave_mutator t none = none
  leave_mutator t (some s) = some (record t { mutator = some (m.leave_saferegion s).0 })

  -- `CJRT_ScopedEnterSaferegionEnd`.
  unfoldable pub scope_end : Bool → Thread S → Option (Thread S)
  unfolding leave_mutator
  scope_end false t = some t
  scope_end true t = leave_mutator t t.mutator

  -- The callers pass the result of the beginning to the end.
  unfoldable pub run : Scopes → Thread S → Option (Thread S)
  run idle t = some t
  run (scope inner rest) t =
      let (t', changed) = scope_begin t in
      elim (run inner t') [
        | none ↦ none
        | some u ↦ elim (scope_end changed u) [ none ↦ none | some v ↦ run rest v ]
      ]

  -- The same thread, as far as a caller of the two halves can tell.
  abbrev pub inside : Option S → Option Bool
  inside none = none
  inside (some s) = some (m.in_saferegion s)

  abbrev pub now_inside : Option S → Option Bool
  now_inside none = none
  now_inside (some s) = some true

  pub record Same (t u : Thread S) : Type 0 where
    pub kind : u.thread_type ≡ t.thread_type
    pub region : inside u.mutator ≡ inside t.mutator

  module _ (law : IsMutator m) where
    -- A beginning that changes the region found a mutator outside it and has put it inside.
    opened :
        (k : ThreadType) (o : Option S)
        → let t : Thread S = record { thread_type = k; mutator = o } in
          (scope_begin t).1 ≡ true
          → (inside o ≡ some false) × (inside (scope_begin t).0.mutator ≡ some true)
    unfolding scope_begin
    opened k none h = ground arith
    opened k (some s) h = ground (arith, law.enters true s, law.entered true s)

    kept :
        (k : ThreadType) (o : Option S)
        → let t : Thread S = record { thread_type = k; mutator = o } in
          (scope_begin t).1 ≡ false → inside (scope_begin t).0.mutator ≡ inside o
    unfolding scope_begin
    kept k none h = ground arith
    kept k (some s) h = ground (arith, law.enters true s, law.entered true s)

    begin_kind : (t : Thread S) → (scope_begin t).0.thread_type ≡ t.thread_type
    unfolding scope_begin
    begin_kind t = ground arith

    -- An end that is told of a change finds a mutator and puts it outside.
    closed :
        (k : ThreadType) (o : Option S)
        → inside o ≡ some true
        → (v : Thread S) × (scope_end true (record { thread_type = k; mutator = o }) ≡ some v)
          × (v.thread_type ≡ k)
          × (inside v.mutator ≡ some false)
    unfolding scope_end
    closed k none h = absurd (cc)
    closed k (some s) h = (
      record { thread_type = k; mutator = some (m.leave_saferegion s).0 },
      refl,
      refl,
      ap some (law.left s),
    )

    -- The end takes back what its beginning did, on every thread like the one that it left.
    end_of :
        (t u : Thread S)
        → Same (scope_begin t).0 u
        → (v : Thread S) × (scope_end (scope_begin t).1 u ≡ some v) × Same t v
    unfolding scope_end
    end_of t u same = elim (Bool-cases (scope_begin t).1) [
      | inl changed ↦
          let (before, after) = opened t.thread_type t.mutator changed in
          let (v, e, k, r) = closed u.thread_type u.mutator (same.region ∙ after) in
          (v, rw changed e, record { kind = k ∙ same.kind ∙ begin_kind t; region = r ∙ sym before })
      | inr unchanged ↦ (
        u,
        rw unchanged refl,
        record {
          kind = same.kind ∙ begin_kind t;
          region = same.region ∙ kept t.thread_type t.mutator unchanged;
        },
      )
    ]

    Same-trans : {t u v : Thread S} → Same t u → Same u v → Same t v
    Same-trans p q = record { kind = q.kind ∙ p.kind; region = q.region ∙ p.region }

    run-Same : (s : Scopes) (t : Thread S) → (u : Thread S) × (run s t ≡ some u) × Same t u
    unfolding run
    run-Same idle t = (t, refl, record { kind = refl; region = refl })
    run-Same (scope inner rest) t =
        let (u, e, p) = run-Same inner (scope_begin t).0 in
        let (v, f, q) = end_of t u p in
        let (w, g, r) = run-Same rest v in (w, rw (e, run, f, g), Same-trans q r)

    begin_inside :
        (k : ThreadType) (o : Option S)
        → inside (scope_begin (record { thread_type = k; mutator = o })).0.mutator
          ≡ (if is_exempt k then inside o else now_inside o)
    unfolding scope_begin
    begin_inside k none = ground arith
    begin_inside k (some s) = ground (arith, law.entered true s)

    -- Nested and consecutive scopes never call through a null mutator, and leave the type of the
    -- thread, and whether its mutator, if there is one, is in a safe region, as they were. When a scope has begun, the mutator
    -- of the thread, if there is one, is in a safe region, except that the threads of the finalizer
    -- and of the collector stay where they are.
    pub run_balanced :
        (s : Scopes) (t : Thread S)
        → ((u : Thread S) × (run s t ≡ some u) × Same t u)
          × (inside (scope_begin t).0.mutator
              ≡ (if is_exempt t.thread_type then inside t.mutator else now_inside t.mutator))
    run_balanced s t = (run-Same s t, begin_inside t.thread_type t.mutator)
