-- ===== src/Windows/Manager.antt =====
-- rt0/os/Windows/WinModuleManager.h and .cpp, lines 56-178: the set of loaded modules, how it is
-- filled and how it is searched. What the system answers to the calls that list the modules of
-- the process is an argument.
pub mod Lookup
pub mod Refresh
use Prim.Native.String.{String}
use text.Mathlib.Text.{◌==◌ as str_eq}
use cjcj_runtime.Base.{
  ℕ, zero, suc, ◌/◌, Bool, List, [], ◌∷◌, Option, none, some, leb, if◌then◌else◌, true, false,
  length, add64, find_first, ◌||◌,
}
use cjcj_runtime.Windows.Module.{WinModule, RuntimeFunction, is_in_module}

-- `std::unordered_set<WinModule*>` with hash and equality on the module name: a list in the
-- order in which the set happens to iterate.
pub record WinModuleManager : Type 0 where
  pub win_modules : List WinModule

abbrev pub native_lib_names : List String
native_lib_names =
    "ntdll.dll" ∷ "KERNEL32.DLL" ∷ "KERNELBASE.dll" ∷ "msvcrt.dll" ∷ "libgcc_s_seh-1.dll"
    ∷ "libstdc++-6.dll" ∷ "libwinpthread-1.dll" ∷ "ucrtbase.dll" ∷ "dbghelp.dll" ∷ "libssp-0.dll"
    ∷ "ADVAPI32.dll" ∷ "sechost.dll" ∷ "RPCRT4.dll" ∷ "libsecurec.dll" ∷ "CRYPTSP.dll"
    ∷ "rsaenh.dll" ∷ "bcrypt.dll" ∷ "CRYPTBASE.dll" ∷ "bcryptPrimitives.dll" ∷ "SYSFER.DLL" ∷ []

-- `nativeLibNames.count(name) != 0`.
unfoldable pub in_names : String → List String → Bool
in_names name [] = false
in_names name (n ∷ ns) = str_eq n name || in_names name ns

unfoldable pub is_native : String → Bool
is_native name = in_names name native_lib_names

-- `WinModuleCmp`.
unfoldable pub same_name : WinModule → WinModule → Bool
same_name lhs rhs = str_eq lhs.module_name rhs.module_name

unfoldable pub get_win_module_by_pc : WinModuleManager → ℕ → Option WinModule
get_win_module_by_pc g pc = find_first (λ m. is_in_module m pc) g.win_modules

unfoldable pub get_win_module_by_name : WinModuleManager → String → Option WinModule
get_win_module_by_name g name = find_first (λ m. str_eq m.module_name name) g.win_modules

-- `winModules.emplace`: no insertion next to an equal element.
unfoldable pub emplace : WinModule → WinModuleManager → WinModuleManager
emplace m g = elim (find_first (λ n. same_name n m) g.win_modules) [
  | some n ↦ g
  | none ↦ record { win_modules = m ∷ g.win_modules }
]

-- What the system tells of a module: its names, image and exception directory.
pub record Image : Type 0 where
  pub base_name : String
  pub full_name : String
  pub dll_base : ℕ
  pub size_of_image : ℕ
  pub func_table : List RuntimeFunction
  pub func_table_size : ℕ

-- `sizeof(RuntimeFunction)`: three 32-bit fields.
abbrev pub runtime_function_size : ℕ
runtime_function_size = 12

abbrev pub to_win_module : String → Image → WinModule
to_win_module name i = record {
  image_base_start = i.dll_base;
  image_base_end = add64 i.dll_base i.size_of_image;
  func_table = i.func_table;
  func_table_count = i.func_table_size / runtime_function_size;
  module_name = name;
}

-- One entry of the loader's ring, narrowed to bytes; `none` where `baseDllName.Buffer` is null,
-- which skips the entry.
unfoldable pub init_entry : Option Image → WinModuleManager → WinModuleManager
init_entry none g = g
init_entry (some i) g =
    if str_eq i.base_name ""
    then g
    else if is_native i.base_name
    then g
    else emplace (to_win_module i.base_name i) g

-- The walk round the ring, from its first entry until it comes back to it.
unfoldable pub read_win_module_at_init : List (Option Image) → WinModuleManager → WinModuleManager
read_win_module_at_init [] g = g
read_win_module_at_init (e ∷ es) g = read_win_module_at_init es (init_entry e g)

-- One handle of the array. Here a module is known by its full path, and native libraries are
-- told by their base name.
unfoldable pub module_info : Image → WinModuleManager → WinModuleManager
module_info i g = if is_native i.base_name then g else emplace (to_win_module i.full_name i) g

-- `none` is the use of a handle that `EnumProcessModules` did not write.
unfoldable pub read_module_info : List (Option Image) → WinModuleManager → Option WinModuleManager
read_module_info [] g = some g
read_module_info (none ∷ is) g = none
read_module_info (some i ∷ is) g = read_module_info is (module_info i g)

-- The first `n` cells of an array into which the system wrote `is`.
unfoldable pub written : ℕ → List Image → List (Option Image)
written zero is = []
written (suc n) [] = none ∷ written n []
written (suc n) (i ∷ is) = some i ∷ written n is

abbrev pub module_handler_capacity : ℕ
module_handler_capacity = 50

-- `first` and `second` are the modules of the process at the two calls of `EnumProcessModules`.
unfoldable pub read_win_module_at_running :
    List Image → List Image → WinModuleManager → Option WinModuleManager
read_win_module_at_running first second g =
    if leb (length first) module_handler_capacity
    then read_module_info (written (length first) first) g
    else read_module_info (written (length first) second) g
