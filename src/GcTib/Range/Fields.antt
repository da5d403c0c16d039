-- ===== src/GcTib/Range/Fields.antt =====
-- GCTib.cj, lines 184-207: GCTibForEachBitmapWordInRange beside GCTibForEachBitmapWord.
use cjcj_runtime.Base.{
  ℕ, ◌+◌, ◌%◌, ◌^◌, ◌<◌, ◌≤◌, ◌≡◌, ◌⊎◌, refl, ap, ◌∙◌, Bool, false, leb, ltb, ◌&&◌, if◌then◌else◌,
  some, List, [], ◌∷◌, arith, All, Bool-cases, inl, inr,
}
use cjcj_runtime.GcTib.{
  GcTib, is_gctib_word, align_range_start, short_for_each, for_each_bitmap_word,
  for_each_bitmap_word_in_range,
}
use cjcj_runtime.GcTib.Bits.{addresses, keep, bits_loop-addresses, keep-none, keep-keep, All-weaken}
use cjcj_runtime.GcTib.Shift.{addresses-aligned}
use cjcj_runtime.GcTib.Range.{
  AreBytes, std_addresses, std_addresses-aligned, std_for_each-addresses,
}
use cjcj_runtime.GcTib.Range.Start.{std_for_each_in_range-keep, short_for_each_in_range-keep}

-- A field that lies in the range.
abbrev pub is_in_range : ℕ → ℕ → ℕ → Bool
is_in_range start stop a = leb start a && ltb a stop

keep-cong : (p q : ℕ → Bool) (l : List ℕ) → All (λ (a : ℕ). p a ≡ q a) l → keep p l ≡ keep q l
keep-cong p q [] h = refl
keep-cong p q (x ∷ l) (e, h) = ground (arith, e, keep-cong p q l h)

align_lem :
    (start stop a : ℕ)
    → a % 8 ≡ 0
    → is_in_range (align_range_start start) stop a ≡ is_in_range start stop a
align_lem start stop a h = ground (arith, h)

abbrev fields : GcTib → ℕ → List ℕ
fields g content =
    if is_gctib_word g then addresses 64 (g.tag % 2 ^ 63) content else std_addresses g.words content

fields-aligned :
    (g : GcTib) (content : ℕ) → content % 8 ≡ 0 → All (λ (a : ℕ). a % 8 ≡ 0) (fields g content)
fields-aligned g content h = elim (Bool-cases (is_gctib_word g)) [
  | inl word ↦ rw word (addresses-aligned 64 (g.tag % 2 ^ 63) content h)
  | inr bytes ↦ rw bytes (std_addresses-aligned content g.words h)
]

module _ (g : GcTib) (content start stop : ℕ) (bytes : AreBytes g.words) (aligned : content % 8 ≡ 0)
    (le : content ≤ start)
    (short : (is_gctib_word g ≡ false) ⊎ (align_range_start start < content + 512)) where
  all_fields : for_each_bitmap_word g content ≡ some (fields g content)
  unfolding for_each_bitmap_word short_for_each
  all_fields = elim (Bool-cases (is_gctib_word g)) [
    | inl word ↦ rw word (bits_loop-addresses 64 (g.tag % 2 ^ 63) content (omega arith))
    | inr words ↦ rw words (std_for_each-addresses g.words content bytes)
  ]

  fields_from :
      for_each_bitmap_word_in_range g content start stop
      ≡ some (keep (is_in_range (align_range_start start) stop) (fields g content))
  unfolding for_each_bitmap_word_in_range
  fields_from =
      let first = align_range_start start in
      let first_aligned : first % 8 ≡ 0 = omega arith in
      let above : content ≤ first = omega (arith, le) in
      elim (Bool-cases (leb stop first)) [
        | inl nothing ↦ ground (
          arith,
          nothing,
          keep-none (is_in_range first stop) (fields g content) (
              All-weaken (λ (a : ℕ). a % 8 ≡ 0) (λ (a : ℕ). is_in_range first stop a ≡ false)
                (λ a h. ground (arith, nothing)) (fields g content)
                (fields-aligned g content aligned)),
        )
        | inr some_bytes ↦ elim (Bool-cases (is_gctib_word g)) [
          | inl word ↦
              let low : first < content + 512 = elim short [
                | inl no_word ↦ absurd (cc (word, no_word))
                | inr lt ↦ lt
              ] in
              let e =
                short_for_each_in_range-keep first stop g.tag content above low aligned
                  first_aligned in
              let k =
                keep-keep (λ a. leb first a) (λ a. ltb a stop)
                  (addresses 64 (g.tag % 2 ^ 63) content) in
              rw word (ground (arith, some_bytes, word, e, k))
          | inr words ↦
              let e =
                std_for_each_in_range-keep first stop g.words content bytes above aligned
                  first_aligned in
              let k =
                keep-keep (λ a. leb first a) (λ a. ltb a stop) (std_addresses g.words content) in
              rw words (ground (arith, some_bytes, words, e, k))
        ]
      ]

  -- For an object whose content is aligned, and a range that starts in it: both enumerations end, and
  -- the one of the range visits exactly those fields of the other, in the same order, that lie at
  -- its start or behind and before its end. Where the bitmap is in the tag the start has to be in its
  -- 64 words, so that the shift is defined.
  pub for_each_bitmap_word_in_range-for_each_bitmap_word :
      (all : List ℕ) × (for_each_bitmap_word g content ≡ some all)
      × (for_each_bitmap_word_in_range g content start stop
          ≡ some (keep (is_in_range start stop) all))
  for_each_bitmap_word_in_range-for_each_bitmap_word = (
    fields g content,
    all_fields,
    fields_from
        ∙ ap some (
            keep-cong (is_in_range (align_range_start start) stop) (is_in_range start stop)
              (fields g content)
              (All-weaken (λ (a : ℕ). a % 8 ≡ 0)
                (λ (a : ℕ). is_in_range (align_range_start start) stop a ≡ is_in_range start stop a)
                (align_lem start stop) (fields g content) (fields-aligned g content aligned))),
  )
