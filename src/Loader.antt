-- ===== src/Loader.antt =====
-- rt0/os/Linux/Loader.cpp and rt0/os/Windows/Loader.cpp, lines 35 to 56: libraries that the runtime
-- loads, and their symbols. The dynamic linker is a parameter.
pub mod Open
use Prim.Native.String.{String}
use cjcj_runtime.Base.{ℕ, ◌+◌, ◌-◌, ◌^◌, ◌<◌, ◌≡◌, ◌≢◌, ◌==◌, if◌then◌else◌, Option, none, some}

-- What `dladdr` finds, each a pointer that may be null.
pub record DlInfo : Type 0 where
  pub dli_fname : Option String
  pub dli_sname : Option String

-- The calls of the linker on its state `S`. A handler is a number, 0 for null; an `int` is its bit
-- pattern. `dladdr` has its result with what it stores.
pub record Linker (S : Type 0) : Type 0 where
  pub dlopen : String → S → ℕ × S
  pub dlclose : ℕ → S → ℕ × S
  pub dlsym : S → ℕ → String → ℕ
  pub dladdr : S → ℕ → ℕ × DlInfo
  pub load_library : Option String → S → ℕ × S
  pub free_library : ℕ → S → ℕ × S
  pub get_proc_address : S → ℕ → String → ℕ
  -- How often a library is open.
  pub open_count : S → ℕ → ℕ

abbrev pub count_more : (ℕ → ℕ) → ℕ → ℕ → ℕ
count_more f h k = if k == h then f k + 1 else f k

-- What the manuals say: a library that has been opened can be closed as often. `dlclose` returns 0
-- for that, and `FreeLibrary` something else than 0.
pub record IsLinker {S : Type 0} (l : Linker S) : Type 0 where
  pub dlopen_counts :
      (path : String) (s : S) (k : ℕ)
      → (l.dlopen path s).0 ≢ 0
      → l.open_count (l.dlopen path s).1 k ≡ count_more (l.open_count s) (l.dlopen path s).0 k
  pub dlclose_counts :
      (h : ℕ) (s : S) (k : ℕ)
      → 0 < l.open_count s h
      → ((l.dlclose h s).0 ≡ 0)
        × (l.open_count s k ≡ count_more (l.open_count (l.dlclose h s).1) h k)
  pub load_library_counts :
      (path : Option String) (s : S) (k : ℕ)
      → (l.load_library path s).0 ≢ 0
      → l.open_count (l.load_library path s).1 k
        ≡ count_more (l.open_count s) (l.load_library path s).0 k
  pub free_library_counts :
      (h : ℕ) (s : S) (k : ℕ)
      → 0 < l.open_count s h
      → ((l.free_library h s).0 ≢ 0)
        × (l.open_count s k ≡ count_more (l.open_count (l.free_library h s).1) h k)

pub data Os : Type 0 where
  linux windows : Os

-- -1 as an `int`.
abbrev pub minus_one : ℕ
minus_one = 2 ^ 32 - 1

pub record BinaryInfo : Type 0 where
  pub file_path_name : Option String
  pub symbol_name : Option String

module _ {S : Type 0} (l : Linker S) where
  unfoldable pub load_binary_file : Os → Option String → S → ℕ × S
  load_binary_file linux none s = (0, s)
  load_binary_file linux (some path) s = l.dlopen path s
  load_binary_file windows path s = l.load_library path s

  -- The result of `FreeLibrary` as that of `UnloadBinaryFile`.
  abbrev pub of_free : ℕ × S → ℕ × S
  of_free (result, s) = (if result == 0 then minus_one else 0, s)

  unfoldable pub unload_binary_file : Os → ℕ → S → ℕ × S
  unload_binary_file linux handler s = if handler == 0 then (minus_one, s) else l.dlclose handler s
  unload_binary_file windows handler s =
      if handler == 0 then (minus_one, s) else of_free (l.free_library handler s)

  unfoldable pub find_symbol : Os → S → ℕ → Option String → ℕ
  find_symbol linux s handler none = 0
  find_symbol linux s handler (some name) = l.dlsym s handler name
  find_symbol windows s handler none = 0
  find_symbol windows s handler (some name) = l.get_proc_address s handler name

  -- `GetBinaryInfoFromAddress` on Linux: the result, and the record behind `binInfo`.
  unfoldable pub get_binary_info_from_address : S → ℕ → BinaryInfo → ℕ × BinaryInfo
  get_binary_info_from_address s address info =
      let (ret, found) = l.dladdr s address in
      if address == 0
      then (0, info)
      else if ret == 0
      then (0, info)
      else (ret, record { file_path_name = found.dli_fname; symbol_name = found.dli_sname })
