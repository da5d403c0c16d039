-- ===== src/Sections/Macos.antt =====
-- rt0/os/Macos/Section.cpp, lines 104-197. The loader's list of images and `getsectiondata` are
-- parameters; the names of the sections are those of the source.
use Prim.Native.String.{String}
use text.Mathlib.Text.{◌==◌ as str_eq}
use text.Mathlib.TextEquality.{eq_iff}
use mathlib.Core.List.Memᴰ.{head, tail}
use cjcj_runtime.Base.{
  Memᴰ, ℕ, suc, ◌+◌, ◌-◌, ◌%◌, ◌^◌, List, [], ◌∷◌, Option, none, some, if◌then◌else◌, ◌≡◌, ◌≢◌,
  length, All, ◌++◌, ap, Option-cases, arith, Bool-cases, inl, inr,
}
use cjcj_runtime.Sections.Extent.{
  Section, header, sdk_version, method_info, global_init_func, string_pool_dict, string_pool,
  stack_map, gc_tib, gc_roots, type_template, type_info, type_fields, m_table,
  inner_type_extensions, outer_type_extensions, static_gi_table, gc_flags, reflect_pkg_info,
  reflect_gv, reflect_gi, type_ext, runtime_static, cj_thread_static, Extent, Extents, span_start,
  span_stop,
}

-- The segment and the section that hold each table. There is no section of the CJThread code.
abbrev pub mach_name : Section → Option (String × String)
mach_name header = some ("__CJMETAHEADER", "__cjmetaheader")
mach_name sdk_version = some ("__CJ_METADATA", "__cjsdkversion")
mach_name method_info = some ("__CJ_METADATA", "__cjmethodinfo")
mach_name global_init_func = some ("__CJ_METADATA", "__cjglobalFunc")
mach_name string_pool_dict = some ("__CJ_METADATA", "__cjstrpooldict")
mach_name string_pool = some ("__CJ_METADATA", "__cjstrpool")
mach_name stack_map = some ("__CJ_METADATA", "__cjstackmap")
mach_name gc_tib = some ("__CJ_METADATA", "__cjgctib")
mach_name gc_roots = some ("__CJ_METADATA", "__cjgcroots")
mach_name type_template = some ("__CJ_METADATA", "__cjtemplate")
mach_name type_info = some ("__CJ_METADATA", "__cjtypeinfo")
mach_name type_fields = some ("__CJ_METADATA", "__cj_fields")
mach_name m_table = some ("__CJ_METADATA", "__cjmtable")
mach_name inner_type_extensions = some ("__CJ_METADATA", "__cjinnerty_eds")
mach_name outer_type_extensions = some ("__CJ_METADATA", "__cjouterty_eds")
mach_name static_gi_table = some ("__CJ_METADATA", "__cjstatic_gi")
mach_name gc_flags = some ("__CJ_METADATA", "__cjgcflags")
mach_name reflect_pkg_info = some ("__CJ_METADATA", "__cjref_pkginfo")
mach_name reflect_gv = some ("__CJ_METADATA", "__cjref_gv")
mach_name reflect_gi = some ("__CJ_METADATA", "__cjref_gi")
mach_name type_ext = some ("__CJ_METADATA", "__cjtype_ext")
mach_name runtime_static = some ("__TEXT", "__cjrt_text")
mach_name cj_thread_static = none

-- What the loader knows of one image: its name, and the data of each of its sections.
pub record MachImage : Type 0 where
  pub image_name : String
  pub get_section_data : String → String → Extent

unfoldable pub section_information : MachImage → Extents
section_information m s = elim (mach_name s) [
  | none ↦ record { start = 0; size = 0 }
  | some (segment, section) ↦ m.get_section_data segment section
]

-- The loop over the images: the index of the first with the name, and its number `i`.
unfoldable pub find_image : String → ℕ → List MachImage → Option (ℕ × MachImage)
find_image name i [] = none
find_image name i (m ∷ ms) =
    if str_eq m.image_name name then some (i, m) else find_image name (suc i) ms

-- `InitData`, with `_CJMetaDataSize` as the bit pattern of its `int`. `none`: the assertion fails.
unfoldable pub init_data : String → List MachImage → Option (Extents × ℕ)
unfolding section_information
init_data dylib_name images = elim (find_image dylib_name 0 images) [
  | none ↦ none
  | some (i, m) ↦ let x = section_information m in some (x, (span_stop x - span_start x) % 2 ^ 32)
]

-- The first image of a list with a name, and its index counted from `i`.
abbrev pub IsFirst : String → ℕ → List MachImage → ℕ → MachImage → Type 0
IsFirst name i ms k m =
    (before : List MachImage) × (after : List MachImage) × (ms ≡ before ++ m ∷ after)
    × (m.image_name ≡ name)
    × All (λ n. n.image_name ≢ name) before
    × (k ≡ i + length before)

find_image-IsFirst :
    (name : String) (i : ℕ) (ms : List MachImage) (k : ℕ) (m : MachImage)
    → find_image name i ms ≡ some (k, m)
    → IsFirst name i ms k m
unfolding find_image
find_image-IsFirst name i [] k m h = absurd (cc)
find_image-IsFirst name i (x ∷ ms) k m h = elim (Bool-cases (str_eq x.image_name name)) [
  | inl same ↦
      let hit : ◌≡◌ {A = Option (ℕ × MachImage)} (some (i, x)) (some (k, m)) =
        rw (same, find_image) at h in
      ([], ms, cc, cc ((eq_iff x.image_name name).0 same), tt, omega (arith, first hit))
  | inr other ↦
      let miss : find_image name (suc i) ms ≡ some (k, m) = rw (other, find_image) at h in
      let (b, a, e, n, all, c) = find_image-IsFirst name (suc i) ms k m miss in
      (
        x ∷ b,
        a,
        ap (◌∷◌ x) e,
        n,
        ((λ q. cc (other, (eq_iff x.image_name name).1 q)), all),
        omega arith,
      )
]
  where
    first : ◌≡◌ {A = Option (ℕ × MachImage)} (some (i, x)) (some (k, m)) → i ≡ k
    first e = cc

find_image-ne-none :
    (name : String) (i : ℕ) (n : MachImage) (ms : List MachImage)
    → Memᴰ n ms
    → n.image_name ≡ name
    → find_image name i ms ≢ none
unfolding find_image
find_image-ne-none name i n [] m e = elim m [ ]
find_image-ne-none name i n (x ∷ ms) (head q) e =
    let same : x.image_name ≡ name = cc in ground (arith, (eq_iff x.image_name name).1 same)
find_image-ne-none name i n (x ∷ ms) (tail m) e =
    ground (arith, find_image-ne-none name (suc i) n ms m e)

-- Where the library's own name is in the loader's list, `InitData` succeeds, every section is what
-- `getsectiondata` tells of the first image of that name, and `_CJMetaDataSize` is the span of the
-- sections modulo 2 ^ 32.
pub init_data-IsFirst :
    (name : String) (images : List MachImage) (n : MachImage)
    → Memᴰ n images
    → n.image_name ≡ name
    → (k : ℕ) × (m : MachImage) × IsFirst name 0 images k m
      × (init_data name images
          ≡ some (
            section_information m,
            (span_stop (section_information m) - span_start (section_information m)) % 2 ^ 32,
          ))
unfolding init_data
init_data-IsFirst name images n i own = elim (Option-cases (find_image name 0 images)) [
  | inl e ↦ absurd (find_image-ne-none name 0 n images i own e)
  | inr ((k, m), e) ↦ (k, m, find_image-IsFirst name 0 images k m e, ground arith)
]
