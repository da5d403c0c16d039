-- ===== src/Windows/Module.antt =====
-- rt0/os/Windows/WinModuleManager.h and .cpp, lines 38-54: a loaded image and the binary search
-- of its function table. `Uptr` is 64 bits wide, the indices of the search are `uint32_t`.
mod Steps
pub mod Search
pub mod Faults
use Prim.Native.String.{String}
use cjcj_runtime.Base.{
  ℕ, zero, suc, ◌/◌, Bool, ◌&&◌, List, none, some, leb, ltb, if◌then◌else◌, true, false, get_elem?,
  add32, sub32, sub64,
}

pub record RuntimeFunction : Type 0 where
  pub start_address : ℕ
  pub end_address : ℕ
  pub unwind_info_offset : ℕ

-- `func_table` holds what lies behind the pointer; a read past it has no defined value. The
-- module keeps the length that it was told in `func_table_count`.
pub record WinModule : Type 0 where
  pub image_base_start : ℕ
  pub image_base_end : ℕ
  pub func_table : List RuntimeFunction
  pub func_table_count : ℕ
  pub module_name : String

unfoldable pub is_in_module : WinModule → ℕ → Bool
is_in_module m pc = leb m.image_base_start pc && leb pc m.image_base_end

-- `pc - imageBaseStart`, which wraps.
abbrev pub rva : WinModule → ℕ → ℕ
rva m pc = sub64 pc m.image_base_start

-- The tests of `IsInRuntimeFunc` on the entry that it reads.
abbrev pub covers : RuntimeFunction → ℕ → Bool
covers f r = leb f.start_address r && leb r f.end_address

-- What one round of the loop learns from the entry at `mid`.
pub data Probe : Type 0 where
  fault : Probe
  hit : RuntimeFunction → Probe
  after : Probe
  before : Probe

unfoldable pub probe : List RuntimeFunction → ℕ → ℕ → Probe
probe table r mid = elim (get_elem? table mid) [
  | none ↦ fault
  | some f ↦ if covers f r then hit f else if ltb f.end_address r then after else before
]

-- The ways out of `GetRuntimeFunction`: `missing` is `nullptr`.
pub data Found : Type 0 where
  found : ℕ → RuntimeFunction → Found
  missing : Found
  out_of_bounds : Found
  out_of_fuel : Found

-- `(start + end) / 2`, in 32 bits.
abbrev pub midpoint : ℕ → ℕ → ℕ
midpoint s e = add32 s e / 2

unfoldable pub search_loop : List RuntimeFunction → ℕ → ℕ → ℕ → ℕ → Found
search_loop table r zero s e = out_of_fuel
search_loop table r (suc fuel) s e = elim (leb s e) [
  | false ↦ missing
  | true ↦ elim (probe table r (midpoint s e)) [
    | fault ↦ out_of_bounds
    | hit f ↦ found (midpoint s e) f
    | after ↦ search_loop table r fuel (add32 (midpoint s e) 1) e
    | before ↦ search_loop table r fuel s (sub32 (midpoint s e) 1)
  ]
]

-- Each round halves the range, and a range has at most 2 ^ 32 indices.
abbrev pub rounds : ℕ
rounds = 34

unfoldable pub get_runtime_function : WinModule → ℕ → Found
get_runtime_function m pc =
    search_loop m.func_table (rva m pc) rounds 0 (sub32 m.func_table_count 1)
