-- ===== src/Sections/Windows.antt =====
-- rt0/os/Windows/Section.cpp, lines 79-251. The name of a PE section is a field of eight bytes.
pub mod Names
pub mod Metadata
use Prim.Native.String.{String}
use Prim.Native.Char.{code}
use cjcj_runtime.Base.{
  ℕ, ◌-◌, ◌%◌, ◌^◌, Bool, List, [], ◌∷◌, Option, none, some, ◌==◌, ◌&&◌, if◌then◌else◌, true, false,
  add64,
}
use cjcj_runtime.Sections.Extent.{
  Section, Section-discrete, header, sdk_version, method_info, global_init_func, string_pool_dict,
  string_pool, stack_map, gc_tib, gc_roots, type_template, type_info, type_fields, m_table,
  inner_type_extensions, outer_type_extensions, static_gi_table, gc_flags, reflect_pkg_info,
  reflect_gv, reflect_gi, type_ext, runtime_static, cj_thread_static, Extent, Extents, no_extents,
  span_start, span_stop,
}

abbrev pub codes : String → List ℕ
codes String.[] = []
codes (String.◌∷◌ c s) = code c ∷ codes s

-- `strncmp(name, literal, sizeof(literal) - 1) == 0`, for a literal that holds no NUL.
unfoldable pub starts_with : List ℕ → List ℕ → Bool
starts_with [] name = true
starts_with (c ∷ cs) [] = false
starts_with (c ∷ cs) (d ∷ ds) = c == d && starts_with cs ds

-- The chain of tests.
unfoldable pub section_of : List ℕ → Option Section
unfolding starts_with
section_of n =
    if starts_with (codes ".header") n
    then some header
    else if starts_with (codes ".cjsdkv") n
    then some sdk_version
    else if starts_with (codes ".cjmthd") n
    then some method_info
    else if starts_with (codes ".cjinitF") n
    then some global_init_func
    else if starts_with (codes ".cjspdct") n
    then some string_pool_dict
    else if starts_with (codes ".cjsp") n
    then some string_pool
    else if starts_with (codes ".cjsm") n
    then some stack_map
    else if starts_with (codes ".cjgctib") n
    then some gc_tib
    else if starts_with (codes ".cjgcrts") n
    then some gc_roots
    else if starts_with (codes ".cjtt") n
    then some type_template
    else if starts_with (codes ".cjti") n
    then some type_info
    else if starts_with (codes ".cjfield") n
    then some type_fields
    else if starts_with (codes ".cjmtlb") n
    then some m_table
    else if starts_with (codes ".cjinty") n
    then some inner_type_extensions
    else if starts_with (codes ".cjouty") n
    then some outer_type_extensions
    else if starts_with (codes ".cjsgt") n
    then some static_gi_table
    else if starts_with (codes ".cjgcflg") n
    then some gc_flags
    else if starts_with (codes ".cjrflp") n
    then some reflect_pkg_info
    else if starts_with (codes ".cjrflv") n
    then some reflect_gv
    else if starts_with (codes ".cjrflg") n
    then some reflect_gi
    else if starts_with (codes ".cjtpe") n
    then some type_ext
    else if starts_with (codes ".text_rt") n
    then some runtime_static
    else if starts_with (codes ".text_th") n
    then some cj_thread_static
    else none

pub record SectionHeader : Type 0 where
  pub name : List ℕ
  pub virtual_address : ℕ
  pub virtual_size : ℕ

abbrev pub same_section : Section → Section → Bool
same_section s t = elim (Section-discrete s t) [ yes e ↦ true | no n ↦ false ]

unfoldable pub set_extent : Section → Extent → Extents → Extents
set_extent s e x t = if same_section t s then e else x t

-- One round of the loop over the section headers.
unfoldable pub visit : ℕ → SectionHeader → Extents → Extents
visit base h x = elim (section_of h.name) [
  | none ↦ x
  | some s ↦ set_extent s (record { start = add64 base h.virtual_address; size = h.virtual_size }) x
]

unfoldable pub visit_all : ℕ → List SectionHeader → Extents → Extents
visit_all base [] x = x
visit_all base (h ∷ hs) x = visit_all base hs (visit base h x)

-- What the checks before the loop read; `none` is a null module handle.
pub record Image : Type 0 where
  pub module_handle : ℕ
  pub dos_magic_ok : Bool
  pub nt_signature_ok : Bool
  pub headers : List SectionHeader

-- The extents and `__CJMetadataSize`, whose type has 32 bits on Windows.
unfoldable pub init_data : Option Image → Extents × ℕ
init_data none = (no_extents, 0)
init_data (some i) =
    let x = visit_all i.module_handle i.headers no_extents in
    if i.dos_magic_ok && i.nt_signature_ok
    then (x, (span_stop x - span_start x) % 2 ^ 32)
    else (no_extents, 0)
