-- ===== src/Windows/Module/Search.antt =====
-- What `GetRuntimeFunction` finds, for a table in ascending order.
use cjcj_runtime.Base.{
  ℕ, zero, suc, ◌-◌, ◌^◌, ◌≤◌, ◌<◌, ◌≡◌, refl, List, some, arith, length, get_elem?, get_elem?-some,
  get_elem?-some-lt, ◌⊎◌, true, add32, sub32, false, inl, inr,
}
use native.Mathlib.Decide.{dec_le}
use cjcj_runtime.Windows.Module.Steps.{step-missing, step-found, step-after, step-before}
use cjcj_runtime.Windows.Module.{
  RuntimeFunction, WinModule, rva, covers, Found, found, missing, out_of_bounds, out_of_fuel,
  midpoint, search_loop, get_runtime_function,
}

-- The entries are ranges, and none starts before an earlier one ends.
pub record IsAscending (table : List RuntimeFunction) : Type 0 where
  pub ranges :
      (i : ℕ) (f : RuntimeFunction) → get_elem? table i ≡ some f → f.start_address ≤ f.end_address
  pub ordered :
      (i j : ℕ) (f g : RuntimeFunction)
      → i < j
      → get_elem? table i ≡ some f
      → get_elem? table j ≡ some g
      → f.end_address ≤ g.start_address

-- An entry that holds `r`, or no entry holds it. A run that faults or gives up is no answer.
abbrev pub Locates : List RuntimeFunction → ℕ → Found → Type 0
Locates table r (found i f) = (get_elem? table i ≡ some f) × (covers f r ≡ true)
Locates table r missing =
    (i : ℕ) (f : RuntimeFunction) → get_elem? table i ≡ some f → covers f r ≡ false
Locates table r out_of_bounds = ⊥
Locates table r out_of_fuel = ⊥

-- The loop invariant: what lies outside `start..end` does not hold `r`.
record Inv (table : List RuntimeFunction) (r s e : ℕ) : Type 0 where
  inside : e < length table
  ordered : s ≤ suc e
  below : (i : ℕ) (f : RuntimeFunction) → i < s → get_elem? table i ≡ some f → f.end_address < r
  above : (i : ℕ) (f : RuntimeFunction) → e < i → get_elem? table i ≡ some f → r < f.start_address

covers-cases :
    (f : RuntimeFunction) (r : ℕ)
    → (covers f r ≡ true) ⊎ (f.end_address < r) ⊎ (r < f.start_address)
covers-cases f r = ground arith

module _ (table : List RuntimeFunction) (r : ℕ) (asc : IsAscending table)
    (small : length table < 2 ^ 31)
    (first : (f : RuntimeFunction) → get_elem? table 0 ≡ some f → f.start_address ≤ r) where
  after-Inv :
      {s e : ℕ} (m : ℕ) (f : RuntimeFunction)
      → Inv table r s e
      → m ≤ e
      → get_elem? table m ≡ some f
      → f.end_address < r
      → Inv table r (suc m) e
  after-Inv m f v le g lt = record {
    inside = v.inside;
    ordered = omega arith;
    below = λ i h p q. ground (arith, asc.ordered i m h f, asc.ranges m f);
    above = v.above;
  }

  before-Inv :
      {s e : ℕ} (m : ℕ) (f : RuntimeFunction)
      → Inv table r s e
      → s ≤ suc m
      → suc m ≤ e
      → get_elem? table (suc m) ≡ some f
      → r < f.start_address
      → Inv table r s m
  before-Inv m f v le le' g lt = record {
    inside = omega (arith, v.inside);
    ordered = le;
    below = v.below;
    above = λ i h p q. ground (arith, asc.ordered (suc m) i f h, asc.ranges (suc m) f);
  }

  -- The round after each outcome, given that the rest of the loop is right.
  round-after :
      (n s e m : ℕ) (f : RuntimeFunction)
      → Inv table r s e
      → s ≤ e
      → midpoint s e ≡ m
      → m ≤ e
      → get_elem? table m ≡ some f
      → f.end_address < r
      → Locates table r (search_loop table r n (suc m) e)
      → Locates table r (search_loop table r (suc n) s e)
  round-after n s e m f v more mid le g lt rest =
      let next : add32 m 1 ≡ suc m = omega (arith, v.inside) in
      rw (step-after table r n s e more m mid f g (asc.ranges m f g) lt, next) rest

  round-before :
      (n s e m : ℕ) (f : RuntimeFunction)
      → Inv table r s e
      → s ≤ e
      → midpoint s e ≡ m
      → s ≤ m
      → m ≤ e
      → get_elem? table m ≡ some f
      → r < f.start_address
      → ((k : ℕ) → m ≡ suc k → Inv table r s k → Locates table r (search_loop table r n s k))
      → Locates table r (search_loop table r (suc n) s e)
  round-before n s e zero f v more mid le le' g lt rest = absurd (omega (arith, first f g))
  round-before n s e (suc m) f v more mid le le' g lt rest =
      let next : sub32 (suc m) 1 ≡ m = omega (arith, v.inside) in
      rw (step-before table r n s e more (suc m) mid f g (asc.ranges (suc m) f g) lt, next)
        (rest m refl (before-Inv m f v le le' g lt))

  loop_end :
      (n s e : ℕ) → Inv table r s e → e < s → Locates table r (search_loop table r (suc n) s e)
  loop_end n s e v done =
      rw (step-missing table r n s e done) (λ i f g. ground (arith, v.below i f, v.above i f))

  round-Locates :
      (n s e m : ℕ)
      → Inv table r s e
      → s ≤ e
      → midpoint s e ≡ m
      → s ≤ m
      → m ≤ e
      → (Inv table r (suc m) e → Locates table r (search_loop table r n (suc m) e))
      → ((k : ℕ) → m ≡ suc k → Inv table r s k → Locates table r (search_loop table r n s k))
      → Locates table r (search_loop table r (suc n) s e)
  round-Locates n s e m v more mid le le' right left =
      let (f, g) = get_elem?-some table m (omega (arith, v.inside)) in
      elim (covers-cases f r) [
        | inl c ↦ rw (step-found table r n s e more m mid f g c) (g, c)
        | inr (inl lt) ↦
            round-after n s e m f v more mid le' g lt (right (after-Inv m f v le' g lt))
        | inr (inr lt) ↦ round-before n s e m f v more mid le le' g lt left
      ]

  loop-Locates :
      (n s e : ℕ)
      → Inv table r s e
      → suc e - s < 2 ^ n
      → Locates table r (search_loop table r (suc n) s e)
  loop-Locates zero s e v h = loop_end 0 s e v (omega arith)
  loop-Locates (suc n) s e v h = elim (dec_le s e) [
    | no done ↦ loop_end (suc n) s e v (omega arith)
    | yes more ↦
        round-Locates (suc n) s e (midpoint s e) v more refl (omega (arith, v.inside))
          (omega (arith, v.inside))
          (λ w. loop-Locates n (suc (midpoint s e)) e w (omega (arith, v.inside)))
          (λ k q w. loop-Locates n s k w (omega (arith, v.inside)))
  ]

-- On an ascending table whose first function starts at or before `pc`, the search returns an
-- entry that holds `pc` if there is one and `nullptr` if there is none. It reads only entries of
-- the table, and its loop ends.
pub get_runtime_function-Locates :
    (m : WinModule) (pc : ℕ)
    → IsAscending m.func_table
    → m.func_table_count ≡ length m.func_table
    → 0 < m.func_table_count
    → m.func_table_count < 2 ^ 31
    → ((f : RuntimeFunction) → get_elem? m.func_table 0 ≡ some f → f.start_address ≤ rva m pc)
    → Locates m.func_table (rva m pc) (get_runtime_function m pc)
unfolding get_runtime_function
get_runtime_function-Locates m pc asc count pos small first =
    loop-Locates m.func_table (rva m pc) asc (omega arith) first 33 0 (sub32 m.func_table_count 1)
      (record {
        inside = omega arith;
        ordered = omega arith;
        below = λ i f h g. absurd (omega arith);
        above = λ i f h g. absurd (omega (arith, get_elem?-some-lt m.func_table i f g));
      })
      (omega arith)
