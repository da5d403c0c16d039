-- ===== src/Windows/Loader.antt =====
-- rt0/os/Windows/Loader.cpp, lines 20-33 and 57-152: the file and the symbol that an address
-- belongs to. What the system and the image in memory hold is a parameter.
pub mod Symbols
use Prim.Native.String.{String}
use text.Mathlib.Text.{◌==◌ as str_eq}
use cjcj_runtime.Base.{
  ℕ, zero, suc, Bool, List, [], ◌∷◌, Option, none, some, ◌==◌, ◌||◌, ◌&&◌, not, ltb, leb,
  if◌then◌else◌, true, false, add64,
}

-- The module that holds an address, and its export directory: the addresses of the functions, as
-- offsets, and for each exported name the number of its function.
pub record ExportImage : Type 0 where
  pub module_handler : ℕ
  pub directory_size : ℕ
  pub directory_address : ℕ
  pub functions : List ℕ
  pub names : List (ℕ × String)

pub record MemoryInfo : Type 0 where
  pub allocation_base : ℕ
  pub allocation_protect : ℕ

-- The results of `GetModuleHandleExA`, of `GetModuleFileNameA` (its return value, whether the last
-- error is `ERROR_SUCCESS`, and the name) and of `VirtualQuery`.
pub record System : Type 0 where
  pub get_module_handle : ℕ → Option ExportImage
  pub get_module_file_name : ℕ → ℕ × Bool × String
  pub virtual_query : ℕ → Option MemoryInfo

pub record BinaryInfo : Type 0 where
  pub file_path_name : String
  pub symbol_name : String

abbrev pub max_path : ℕ
max_path = 260

abbrev pub page_noaccess : ℕ
page_noaccess = 1

unfoldable pub get_module_handler : System → ℕ → Option ExportImage
get_module_handler s address = if address == 0 then none else s.get_module_handle address

unfoldable pub get_binary_file_path : System → ℕ → BinaryInfo → BinaryInfo
unfolding get_module_handler
get_binary_file_path s address info = elim (get_module_handler s address) [
  | none ↦ info
  | some m ↦
      let (size, success, name) = s.get_module_file_name m.module_handler in
      if size == 0 || (size == max_path && success)
      then info
      else record info { file_path_name = name }
]

-- `candidateAddr` and `candidateIndex`; `none` is -1.
pub record Candidate : Type 0 where
  pub addr : ℕ
  pub index : Option ℕ

-- The loop over the functions, from number `i` on. A function after the address, or not after the
-- candidate, is passed over.
unfoldable pub search_functions : ℕ → ℕ → ℕ → List ℕ → Candidate → Candidate
search_functions base address i [] c = c
search_functions base address i (f ∷ fs) c = search_functions base address (suc i) fs (
    if ltb address (add64 base f) || leb (add64 base f) c.addr
    then c
    else record { addr = add64 base f; index = some i })

-- The loop over the names: the first that belongs to the function.
unfoldable pub search_names : ℕ → List (ℕ × String) → Option String
search_names index [] = none
search_names index ((ordinal, name) ∷ ns) =
    if ordinal == index then some name else search_names index ns

abbrev pub no_candidate : Candidate
no_candidate = record { addr = 0; index = none }

unfoldable pub find_candidate : ExportImage → ℕ → Option ℕ
unfolding search_functions
find_candidate m address =
    (search_functions m.module_handler address 0 m.functions no_candidate).index

-- The name that `GetSymbolName` stores, if it stores one.
unfoldable pub symbol_of : ExportImage → ℕ → Option String
unfolding find_candidate search_names
symbol_of m address =
    if m.directory_size == 0 || m.directory_address == 0
    then none
    else elim (find_candidate m address) [ none ↦ none | some index ↦ search_names index m.names ]

unfoldable pub get_symbol_name : System → ℕ → BinaryInfo → BinaryInfo
unfolding get_module_handler symbol_of
get_symbol_name s address info = elim (get_module_handler s address) [
  | none ↦ info
  | some m ↦ elim (symbol_of m address) [
    | none ↦ info
    | some name ↦ record info { symbol_name = name }
  ]
]

unfoldable pub is_valid_address : System → ℕ → Bool
is_valid_address s address = elim (s.virtual_query address) [
  | none ↦ false
  | some i ↦
      not (i.allocation_base == 0)
      && (not (i.allocation_protect == 0) && not (i.allocation_protect == page_noaccess))
]

unfoldable pub get_binary_info_from_address : System → ℕ → BinaryInfo → BinaryInfo × ℕ
get_binary_info_from_address s address info =
    let found = get_symbol_name s address (get_binary_file_path s address info) in
    if address == 0
    then (info, 0)
    else if not (is_valid_address s address)
    then (info, 0)
    else (found, if str_eq found.file_path_name "" then 0 else 1)
