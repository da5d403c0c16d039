-- ===== src/Sections/Windows/Names.antt =====
-- Which section a name stands for.
use Prim.Native.String.{String}
use cjcj_runtime.Base.{ℕ, List, ◌++◌, some, ◌≡◌, Bool, true, false, refl, if◌then◌else◌}
use cjcj_runtime.Sections.Extent.{
  Section, header, sdk_version, method_info, global_init_func, string_pool_dict, string_pool,
  stack_map, gc_tib, gc_roots, type_template, type_info, type_fields, m_table,
  inner_type_extensions, outer_type_extensions, static_gi_table, gc_flags, reflect_pkg_info,
  reflect_gv, reflect_gi, type_ext, runtime_static, cj_thread_static,
}
use cjcj_runtime.Sections.Windows.{codes, starts_with, section_of}

-- The name of each section in the image, at most eight characters long.
abbrev pub name_of : Section → String
name_of header = ".header"
name_of sdk_version = ".cjsdkv"
name_of method_info = ".cjmthd"
name_of global_init_func = ".cjinitF"
name_of string_pool_dict = ".cjspdct"
name_of string_pool = ".cjsp"
name_of stack_map = ".cjsm"
name_of gc_tib = ".cjgctib"
name_of gc_roots = ".cjgcrts"
name_of type_template = ".cjtt"
name_of type_info = ".cjti"
name_of type_fields = ".cjfield"
name_of m_table = ".cjmtlb"
name_of inner_type_extensions = ".cjinty"
name_of outer_type_extensions = ".cjouty"
name_of static_gi_table = ".cjsgt"
name_of gc_flags = ".cjgcflg"
name_of reflect_pkg_info = ".cjrflp"
name_of reflect_gv = ".cjrflv"
name_of reflect_gi = ".cjrflg"
name_of type_ext = ".cjtpe"
name_of runtime_static = ".text_rt"
name_of cj_thread_static = ".text_th"

abbrev is_pool : Section → Bool
is_pool string_pool = true
is_pool s = false

-- Each name is recognised as its own section, whatever follows it in the field, except that
-- `.cjsp` with `dct` behind it is the dictionary of the pool.
pub section_of-name_of :
    (s : Section) (rest : List ℕ)
    → section_of (codes (name_of s) ++ rest) ≡ (
        if is_pool s
        then (if starts_with (codes "dct") rest then some string_pool_dict else some string_pool)
        else some s)
unfolding section_of
section_of-name_of header rest = refl
section_of-name_of string_pool rest = refl
section_of-name_of s rest = refl
