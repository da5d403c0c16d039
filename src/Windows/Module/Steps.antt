-- ===== src/Windows/Module/Steps.antt =====
-- One round of the loop of `GetRuntimeFunction`, on each of its branches.
use cjcj_runtime.Base.{
  ℕ, suc, ◌≤◌, ◌<◌, ◌≡◌, List, none, some, arith, get_elem?, true, add32, sub32,
}
use cjcj_runtime.Windows.Module.{
  RuntimeFunction, covers, probe, found, missing, out_of_bounds, midpoint, search_loop,
}

module _ (table : List RuntimeFunction) (r n s e : ℕ) where
  pub step-missing : e < s → search_loop table r (suc n) s e ≡ missing
  unfolding search_loop
  step-missing h = ground arith

  module _ (more : s ≤ e) (m : ℕ) (mid : midpoint s e ≡ m) where
    pub step-out_of_bounds :
        get_elem? table m ≡ none → search_loop table r (suc n) s e ≡ out_of_bounds
    unfolding search_loop probe
    step-out_of_bounds g = ground arith

    module _ (f : RuntimeFunction) (entry : get_elem? table m ≡ some f) where
      pub step-found : covers f r ≡ true → search_loop table r (suc n) s e ≡ found m f
      unfolding search_loop probe
      step-found c = ground arith

      pub step-after :
          f.start_address ≤ f.end_address
          → f.end_address < r
          → search_loop table r (suc n) s e ≡ search_loop table r n (add32 m 1) e
      unfolding search_loop probe
      step-after c d = ground arith

      pub step-before :
          f.start_address ≤ f.end_address
          → r < f.start_address
          → search_loop table r (suc n) s e ≡ search_loop table r n s (sub32 m 1)
      unfolding search_loop probe
      step-before c d = ground arith
