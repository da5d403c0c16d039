-- ===== src/Sections/Windows/Metadata.antt =====
-- The size of the metadata.
use mathlib.Core.List.Memᴰ.{head, tail}
use cjcj_runtime.Base.{
  ℕ, ◌+◌, ◌-◌, ◌%◌, ◌^◌, ◌≤◌, ◌<◌, List, [], ◌∷◌, ◌++◌, some, ◌≡◌, ◌≢◌, refl, ap, sym, ◌∙◌, true,
  arith, Memᴰ, All, add64, Option-cases, inl, inr,
}
use cjcj_runtime.Sections.Extent.{
  Section, Section-discrete, Extent, Extents, no_extents, stop, spanned, span_start, span_stop,
  span_bounds, header, sdk_version, method_info, global_init_func, string_pool_dict, string_pool,
  stack_map, gc_tib, gc_roots, type_template, type_info, type_fields, m_table,
  inner_type_extensions, outer_type_extensions, static_gi_table, gc_flags, reflect_pkg_info,
  reflect_gv, reflect_gi, type_ext, runtime_static, cj_thread_static,
}
use cjcj_runtime.Sections.Windows.{
  Image, SectionHeader, init_data, visit_all, visit, set_extent, section_of,
}

-- Where a section of the image lies in memory.
abbrev placed : ℕ → SectionHeader → Extent
placed base h = record { start = add64 base h.virtual_address; size = h.virtual_size }

visit_all-append :
    (base : ℕ) (before after : List SectionHeader) (x : Extents)
    → visit_all base (before ++ after) x ≡ visit_all base after (visit_all base before x)
unfolding visit_all
visit_all-append base [] after x = refl
visit_all-append base (h ∷ hs) after x = visit_all-append base hs after (visit base h x)

visit-other :
    (base : ℕ) (h : SectionHeader) (s : Section) (x : Extents)
    → section_of h.name ≢ some s
    → visit base h x s ≡ x s
unfolding visit set_extent
visit-other base h s x n = elim (Option-cases (section_of h.name)) [
  | inl e ↦ ground (arith, e)
  | inr (t, e) ↦ elim (Section-discrete s t) [
    | yes q ↦ absurd (n (e ∙ ap some (sym q)))
    | no m ↦ ground (arith, e, m)
  ]
]

visit-same :
    (base : ℕ) (h : SectionHeader) (s : Section) (x : Extents)
    → section_of h.name ≡ some s
    → visit base h x s ≡ placed base h
unfolding visit set_extent
visit-same base h s x e = elim (Section-discrete s s) [
  | yes q ↦ ground (arith, e, q)
  | no m ↦ absurd (m refl)
]

visit_all-other :
    (base : ℕ) (hs : List SectionHeader) (s : Section) (x : Extents)
    → All (λ k. section_of k.name ≢ some s) hs
    → visit_all base hs x s ≡ x s
unfolding visit_all
visit_all-other base [] s x all = refl
visit_all-other base (h ∷ hs) s x (n, all) =
    visit_all-other base hs s (visit base h x) all ∙ visit-other base h s x n

-- The last section of a name gives its extent.
visit_all-last :
    (base : ℕ) (before after : List SectionHeader) (h : SectionHeader) (s : Section) (x : Extents)
    → section_of h.name ≡ some s
    → All (λ k. section_of k.name ≢ some s) after
    → visit_all base (before ++ h ∷ after) x s ≡ placed base h
unfolding visit_all
visit_all-last base before after h s x e all =
    ap (λ y. y s) (visit_all-append base before (h ∷ after) x)
    ∙ visit_all-other base after s (visit base h (visit_all base before x)) all
    ∙ visit-same base h s (visit_all base before x) e

-- All sections but three take part in the span.
spanned-mem :
    (s : Section) → s ≢ header → s ≢ runtime_static → s ≢ cj_thread_static → Memᴰ s spanned
spanned-mem header a b c = absurd (a refl)
spanned-mem runtime_static a b c = absurd (b refl)
spanned-mem cj_thread_static a b c = absurd (c refl)
spanned-mem sdk_version a b c = head refl
spanned-mem method_info a b c = tail (head refl)
spanned-mem global_init_func a b c = tail (tail (head refl))
spanned-mem string_pool_dict a b c = tail (tail (tail (head refl)))
spanned-mem string_pool a b c = tail (tail (tail (tail (head refl))))
spanned-mem stack_map a b c = tail (tail (tail (tail (tail (head refl)))))
spanned-mem gc_tib a b c = tail (tail (tail (tail (tail (tail (head refl))))))
spanned-mem gc_roots a b c = tail (tail (tail (tail (tail (tail (tail (head refl)))))))
spanned-mem type_template a b c = tail (tail (tail (tail (tail (tail (tail (tail (head refl))))))))
spanned-mem type_info a b c =
    tail (tail (tail (tail (tail (tail (tail (tail (tail (head refl)))))))))
spanned-mem type_fields a b c =
    tail (tail (tail (tail (tail (tail (tail (tail (tail (tail (head refl))))))))))
spanned-mem m_table a b c =
    tail (tail (tail (tail (tail (tail (tail (tail (tail (tail (tail (head refl)))))))))))
spanned-mem inner_type_extensions a b c =
    tail (tail (tail (tail (tail (tail (tail (tail (tail (tail (tail (tail (head refl))))))))))))
spanned-mem outer_type_extensions a b c =
    tail (
      tail (tail (tail (tail (tail (tail (tail (tail (tail (tail (tail (tail (head refl)))))))))))))
spanned-mem static_gi_table a b c = tail (
    tail (
      tail
        (tail (tail (tail (tail (tail (tail (tail (tail (tail (tail (tail (head refl))))))))))))))
spanned-mem gc_flags a b c = tail (
    tail (
      tail (
        tail (
          tail (tail (tail (tail (tail (tail (tail (tail (tail (tail (tail (head refl)))))))))))))))
spanned-mem reflect_pkg_info a b c = tail (
    tail (
      tail (
        tail (
          tail (
            tail
              (tail (tail (tail (tail (tail (tail (tail (tail (tail (tail (head refl))))))))))))))))
spanned-mem reflect_gv a b c = tail (
    tail (
      tail (
        tail (
          tail (
            tail (
              tail (
                tail
                  (tail (tail (tail (tail (tail (tail (tail (tail (tail (head refl)))))))))))))))))
spanned-mem reflect_gi a b c = tail (
    tail (
      tail (
        tail (
          tail (
            tail (
              tail (
                tail (
                  tail (
                    tail
                      (tail (tail (tail (tail (tail (tail (tail (tail (head refl))))))))))))))))))
spanned-mem type_ext a b c = tail (
    tail (
      tail (
        tail (
          tail (
            tail (
              tail (
                tail (
                  tail (
                    tail (
                      tail (
                        tail (tail (tail (tail (tail (tail (tail (tail (head refl)))))))))))))))))))

module _ (i : Image) (dos : i.dos_magic_ok ≡ true) (nt : i.nt_signature_ok ≡ true) where
  abbrev found : Extents
  found = (init_data (some i)).0

  abbrev metadata_size : ℕ
  metadata_size = (init_data (some i)).1

  size_lem : metadata_size ≡ (span_stop found - span_start found) % 2 ^ 32
  unfolding init_data
  size_lem = ground (arith, dos, nt)

  found_visit : found ≡ visit_all i.module_handle i.headers no_extents
  unfolding init_data
  found_visit = ground (arith, dos, nt)

  -- In an image with the two magic numbers, of a section whose name stands for any section but the
  -- header's and the two of the runtime's own code, and is not given by a later section again: if
  -- the span of the sections is shorter than 2 ^ 32 bytes, a window of the metadata size from the
  -- start of the span holds both ends of the section where the image has it.
  pub init_data-covers :
      (before after : List SectionHeader) (h : SectionHeader) (s : Section)
      → i.headers ≡ before ++ h ∷ after
      → section_of h.name ≡ some s
      → All (λ k. section_of k.name ≢ some s) after
      → s ≢ header
      → s ≢ runtime_static
      → s ≢ cj_thread_static
      → span_stop found - span_start found < 2 ^ 32
      → let at = add64 i.module_handle h.virtual_address in
        let end = add64 at h.virtual_size in
        (span_start found ≤ at)
        × (at ≤ span_start found + metadata_size)
        × (span_start found ≤ end)
        × (end ≤ span_start found + metadata_size)
  init_data-covers before after h s e name last a b c small =
      let there : found s ≡ placed i.module_handle h =
        ap (λ x. x s) found_visit
        ∙ ap (λ hs. visit_all i.module_handle hs no_extents s) e
        ∙ visit_all-last i.module_handle before after h s no_extents name last in
      omega (
        arith,
        size_lem,
        ap (λ x. x.start) there,
        ap stop there,
        span_bounds found s (spanned-mem s a b c),
      )

  -- If one of the spanned sections is missing, so that its address stays 0, the metadata size of
  -- such an image is the greatest address, modulo 2 ^ 32, wherever the image lies.
  pub init_data-missing :
      (s : Section)
      → Memᴰ s spanned
      → (found s).start ≡ 0
      → metadata_size ≡ span_stop found % 2 ^ 32
  init_data-missing s m absent = omega (arith, size_lem, span_bounds found s m)
