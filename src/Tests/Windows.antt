-- ===== src/Tests/Windows.antt =====
-- Runs of rt0/os/Windows: a module with three functions, a manager with two modules, and the
-- unwind information of a prologue.
use cjcj_runtime.Base.{
  ℕ, zero, suc, ◌≤◌, List, [], ◌∷◌, some, ◌≡◌, refl, true, arith, get_elem?, length, Memᴰ, ◌⊎◌,
  add64,
}
use cjcj_runtime.Windows.Module.{RuntimeFunction, WinModule, rva, get_runtime_function}
use cjcj_runtime.Windows.Module.Search.{IsAscending, Locates, get_runtime_function-Locates}
use cjcj_runtime.Windows.Loader.{
  ExportImage, System, BinaryInfo, symbol_of, find_candidate, search_functions, search_names,
}
use cjcj_runtime.Windows.Loader.Symbols.{IsNearest, symbol_of-IsNearest}
use cjcj_runtime.Windows.Unwind.{UnwindInfo, get_stack_offset, offset}
use cjcj_runtime.Windows.Unwind.Prologue.{Op, push, alloc_small, alloc_scaled, encode}
use cjcj_runtime.Windows.Unwind.Offset.{AllEncodable, get_stack_offset-frame_size}

abbrev function : ℕ → ℕ → RuntimeFunction
function s e = record { start_address = s; end_address = e; unwind_info_offset = 0 }

abbrev table : List RuntimeFunction
table = function 16 31 ∷ function 32 47 ∷ function 64 95 ∷ []

abbrev module_of : List RuntimeFunction → ℕ → WinModule
module_of t n = record {
  image_base_start = 4096;
  image_base_end = 8192;
  func_table = t;
  func_table_count = n;
  module_name = "app.exe";
}

table-entry :
    (i : ℕ) (f : RuntimeFunction)
    → get_elem? table i ≡ some f
    → (f.start_address ≡ 16) × (f.end_address ≡ 31) × (i ≡ 0)
      ⊎ (f.start_address ≡ 32) × (f.end_address ≡ 47) × (i ≡ 1)
      ⊎ (f.start_address ≡ 64) × (f.end_address ≡ 95) × (i ≡ 2)
table-entry zero f e = ground arith
table-entry (suc zero) f e = ground arith
table-entry (suc (suc zero)) f e = ground arith
table-entry (suc (suc (suc i))) f e = absurd (cc)

table-IsAscending : IsAscending table
table-IsAscending = record {
  ranges = λ i f e. ground (arith, table-entry i f e);
  ordered = λ i j f g h e q. ground (arith, table-entry i f e, table-entry j g q);
}

get_runtime_function-Locates_example :
    Locates table (rva (module_of table 3) 4166) (get_runtime_function (module_of table 3) 4166)
get_runtime_function-Locates_example =
    get_runtime_function-Locates (module_of table 3) 4166 table-IsAscending refl (omega arith)
      (omega arith) (λ f e. ground (arith, table-entry 0 f e))

abbrev prologue : List (ℕ × Op)
prologue = (10, alloc_small 4) ∷ (6, push 5) ∷ (1, push 3) ∷ []

abbrev two_allocations : List (ℕ × Op)
two_allocations = (14, alloc_scaled 40) ∷ (10, alloc_small 4) ∷ (1, push 5) ∷ []

abbrev info_of : List (ℕ × Op) → UnwindInfo
info_of os = record {
  version_and_flags = 1;
  prolog_size = 16;
  codes_count = length (encode os);
  frame_register_and_offset = 0;
  unwind_codes = encode os;
}

two_allocations-AllEncodable : AllEncodable two_allocations
two_allocations-AllEncodable = (omega arith, (omega arith, (omega arith, tt)))

prologue-AllEncodable : AllEncodable prologue
prologue-AllEncodable = (omega arith, (omega arith, (omega arith, tt)))

get_stack_offset-frame_size_example : get_stack_offset (info_of prologue) ≡ offset 56
get_stack_offset-frame_size_example =
    get_stack_offset-frame_size (info_of prologue) prologue (refl, refl) prologue-AllEncodable
      (omega arith) refl (omega arith)

-- Two functions, at 4112 and 4144, of a library that is loaded at 4096.
abbrev library : ExportImage
library = record {
  module_handler = 4096;
  directory_size = 40;
  directory_address = 512;
  functions = 48 ∷ 16 ∷ [];
  names = (1, "first") ∷ (0, "second") ∷ [];
}

abbrev system : System
system = record {
  get_module_handle = λ a. some library;
  get_module_file_name = λ h. (7, true, "app.dll");
  virtual_query = λ a. some (record { allocation_base = 4096; allocation_protect = 4 });
}

abbrev no_info : BinaryInfo
no_info = record { file_path_name = ""; symbol_name = "" }

first_symbol : symbol_of library 4120 ≡ some "first"
unfolding symbol_of find_candidate search_functions search_names
first_symbol = refl

symbol_of-IsNearest_example :
    (j f : ℕ) × (get_elem? library.functions j ≡ some f)
    × (add64 4096 f ≤ 4120)
    × IsNearest 4096 4120 library.functions (add64 4096 f)
    × Memᴰ (j, "first") library.names
symbol_of-IsNearest_example = symbol_of-IsNearest library 4120 "first" first_symbol
