-- ===== src/Windows/Module/Faults.antt =====
-- WinModuleManager.cpp, lines 38-54: reads outside the table of `GetRuntimeFunction`.
use native.Mathlib.Decide.{dec_lt}
use cjcj_runtime.Base.{
  ℕ, zero, suc, ◌-◌, ◌^◌, ◌≤◌, ◌<◌, ◌≡◌, refl, ◌∙◌, List, some, arith, length, get_elem?,
  get_elem?-some, get_elem?-none, sub32,
}
use cjcj_runtime.Windows.Module.Steps.{step-out_of_bounds, step-before}
use cjcj_runtime.Windows.Module.{
  RuntimeFunction, WinModule, rva, out_of_bounds, midpoint, search_loop, get_runtime_function,
}

-- Every entry is a range that starts above `r`.
abbrev pub AllAbove : List RuntimeFunction → ℕ → Type 0
AllAbove table r =
    (i : ℕ) (f : RuntimeFunction)
    → get_elem? table i ≡ some f
    → (r < f.start_address) × (f.start_address ≤ f.end_address)

module _ (table : List RuntimeFunction) (r : ℕ) (above : AllAbove table r)
    (small : length table < 2 ^ 31) where
  -- After `end` has wrapped, the next entry read is number 2 ^ 31 - 1.
  wrapped : (n : ℕ) → search_loop table r (suc n) 0 (2 ^ 32 - 1) ≡ out_of_bounds
  wrapped n =
      step-out_of_bounds table r n 0 (2 ^ 32 - 1) (omega arith) (2 ^ 31 - 1) refl
        (get_elem?-none table (2 ^ 31 - 1) (omega arith))

  descend :
      (n e m : ℕ)
      → e < length table
      → midpoint 0 e ≡ m
      → ((k : ℕ) → m ≡ suc k → search_loop table r (suc n) 0 k ≡ out_of_bounds)
      → search_loop table r (suc (suc n)) 0 e ≡ out_of_bounds
  descend n e zero h mid rest =
      let (f, g) = get_elem?-some table 0 (omega arith) in
      step-before table r (suc n) 0 e (omega arith) 0 mid f g (above 0 f g).1 (above 0 f g).0
      ∙ wrapped n
  descend n e (suc m) h mid rest =
      let (f, g) = get_elem?-some table (suc m) (omega arith) in
      let next : sub32 (suc m) 1 ≡ m = omega arith in
      step-before table r (suc n) 0 e (omega arith) (suc m) mid f g (above _ f g).1 (above _ f g).0
      ∙ rw next (rest m refl)

  loop-out_of_bounds :
      (n e : ℕ)
      → e < length table
      → e < 2 ^ n
      → search_loop table r (suc (suc n)) 0 e ≡ out_of_bounds
  loop-out_of_bounds zero e h b = descend 0 e (midpoint 0 e) h refl (λ k q. absurd (omega arith))
  loop-out_of_bounds (suc n) e h b =
      descend (suc n) e (midpoint 0 e) h refl
        (λ k q. loop-out_of_bounds n k (omega arith) (omega arith))

-- If `pc` lies below every function of the module, which includes the module that has no
-- function, `mid - 1` or `funcTableCount - 1` wraps to 2 ^ 32 - 1 and the search reads an entry
-- past the table.
pub get_runtime_function-out_of_bounds :
    (m : WinModule) (pc : ℕ)
    → AllAbove m.func_table (rva m pc)
    → m.func_table_count ≡ length m.func_table
    → m.func_table_count < 2 ^ 31
    → get_runtime_function m pc ≡ out_of_bounds
unfolding get_runtime_function
get_runtime_function-out_of_bounds m pc above count small = elim (dec_lt 0 m.func_table_count) [
  | yes pos ↦
      loop-out_of_bounds m.func_table (rva m pc) above (omega arith) 32 (sub32 m.func_table_count 1)
        (omega arith) (omega arith)
  | no empty ↦
      let none_left : sub32 m.func_table_count 1 ≡ 2 ^ 32 - 1 = omega arith in
      rw none_left (wrapped m.func_table (rva m pc) above (omega arith) 33)
]
