-- ===== src/GcTib/Range/Start.antt =====
-- GCTib.cj, lines 90-103 and 152-174: the number in which a range starts.
use mathlib.Core.Path.{subst}
use cjcj_runtime.Base.{
  ℕ, zero, suc, ◌+◌, ◌-◌, ◌*◌, ◌%◌, ◌^◌, ◌<◌, ◌≤◌, ◌≡◌, ◌⊎◌, refl, sym, ap, ◌∙◌, Bool, true, false,
  ◌==◌, leb, some, List, [], ◌∷◌, ◌++◌, arith, Bool-cases, inl, inr,
}
use cjcj_runtime.GcTib.{
  range_loop, gctib_shift, ref_index, map_index, short_for_each_in_range, std_first, std_from,
  from_index, std_for_each_in_range,
}
use cjcj_runtime.GcTib.Shift.{addresses-shift, shift-below, shift-lt}
use cjcj_runtime.GcTib.Bits.{
  addresses, keep, range_loop-addresses, addresses-bounds, keep-append, keep-all, keep-none,
  All-weaken,
}
use cjcj_runtime.GcTib.Range.{
  AreBytes, std_addresses, std_addresses-above, is_before, unless_ended-keep, behind, std_rest-keep,
}

module _ (start stop : ℕ) where
  abbrev is_from : ℕ → Bool
  is_from a = leb start a

  -- The byte in which the range starts.
  std_first-keep :
      (w base : ℕ)
      → w < 2 ^ 8
      → base ≤ start
      → start < base + 64
      → base % 8 ≡ 0
      → start % 8 ≡ 0
      → (b : Bool) × (std_first w base start stop
          ≡ some (keep (is_before stop) (keep is_from (addresses 8 w base)), b))
        × ((b ≡ false) ⊎ (stop ≤ base + 64))
  unfolding std_first range_loop
  std_first-keep w base byte le lt aligned start_aligned = elim (Bool-cases (w == 0)) [
    | inl no_bits ↦ let e : w ≡ 0 = ground (arith, no_bits) in (false, rw e refl, inl refl)
    | inr bits ↦
        let k = ref_index (start - base) in
        let there : base + 8 * k ≡ start = omega (arith, le, aligned, start_aligned) in
        let fits : leb 32 k ≡ false = ground (arith, lt) in
        let whole : 8 ≡ k + (8 - k) = omega (arith, lt) in
        let (b, e, end) =
          range_loop-addresses 8 (8 - k) (gctib_shift w k) start stop (shift-lt 8 k w byte)
            (shift-below k (8 - k) w (subst (λ (x : ℕ). w < 2 ^ x) whole byte)) in
        let same =
          subst
            (λ (x : ℕ). keep (λ a. leb x a) (addresses 8 w base) ≡ addresses 8 (gctib_shift w k) x)
            there (addresses-shift k 8 w base byte) in
        (
          b,
          ground (arith, bits, fits, e, same),
          elim end [ inl f ↦ inl f | inr g ↦ inr (omega (arith, g, there, lt)) ],
        )
  ]

  above_start :
      (words : List ℕ) (base : ℕ)
      → start ≤ base
      → keep is_from (std_addresses words base) ≡ std_addresses words base
  above_start words base h = keep-all is_from (std_addresses words base) (
      All-weaken (λ (a : ℕ). start ≤ a) (λ (a : ℕ). is_from a ≡ true) (λ a p. ground (arith, p))
        (std_addresses words base) (std_addresses-above start base words h))

  std_from-keep :
      (words : List ℕ) (base : ℕ)
      → AreBytes words
      → base ≤ start
      → start < base + 64
      → base % 8 ≡ 0
      → start % 8 ≡ 0
      → std_from words base start stop
        ≡ some (keep (is_before stop) (keep is_from (std_addresses words base)))
  unfolding std_from
  std_from-keep [] base h le lt aligned start_aligned = refl
  std_from-keep (w ∷ words) base (byte, h) le lt aligned start_aligned =
      let (b, e, end) = std_first-keep w base byte le lt aligned start_aligned in
      let rest = std_addresses words (base + 64) in
      let ends : (b ≡ false) ⊎ (keep (is_before stop) rest ≡ []) = elim end [
        | inl f ↦ inl f
        | inr g ↦ inr (behind stop words (base + 64) g)
      ] in
      let all_of : keep is_from (addresses 8 w base) ++ rest
          ≡ keep is_from (addresses 8 w base ++ rest) =
        ap (◌++◌ (keep is_from (addresses 8 w base)))
          (sym (above_start words (base + 64) (omega (arith, lt))))
        ∙ sym (keep-append is_from (addresses 8 w base) rest) in
      rw (e, std_rest-keep stop words (base + 64) h)
        (unless_ended-keep stop b (keep is_from (addresses 8 w base)) rest ends
          ∙ ap (λ (l : List ℕ). some (keep (is_before stop) l)) all_of)

  -- The bytes before the one in which the range starts have no field in it.
  from_index-keep :
      (i : ℕ) (words : List ℕ) (base : ℕ)
      → base + 64 * i ≤ start
      → keep is_from (std_addresses words base)
        ≡ keep is_from (std_addresses (from_index words i) (i * 64 + base))
  from_index-keep i [] base h = refl
  from_index-keep zero (w ∷ words) base h =
      let same : base ≡ 0 * 64 + base = omega arith in
      ap (λ (x : ℕ). keep is_from (std_addresses (w ∷ words) x)) same
  from_index-keep (suc i) (w ∷ words) base h =
      let early =
        All-weaken (λ (a : ℕ). (base ≤ a) × (a < base + 8 * 8)) (λ (a : ℕ). is_from a ≡ false)
          (λ a (p, q). let lt : a < start = omega (arith, q, h) in ground (arith, lt))
          (addresses 8 w base) (addresses-bounds 8 w base) in
      let same : i * 64 + (base + 64) ≡ suc i * 64 + base = omega arith in
      keep-append is_from (addresses 8 w base) (std_addresses words (base + 64))
      ∙ ap (λ (l : List ℕ). l ++ keep is_from (std_addresses words (base + 64)))
          (keep-none is_from (addresses 8 w base) early)
      ∙ from_index-keep i words (base + 64) (omega (arith, h))
      ∙ ap (λ (x : ℕ). keep is_from (std_addresses (from_index words i) x)) same

  from_index-AreBytes : (i : ℕ) (words : List ℕ) → AreBytes words → AreBytes (from_index words i)
  from_index-AreBytes i [] h = tt
  from_index-AreBytes zero (w ∷ words) h = h
  from_index-AreBytes (suc i) (w ∷ words) (p, h) = from_index-AreBytes i words h

  pub std_for_each_in_range-keep :
      (words : List ℕ) (content : ℕ)
      → AreBytes words
      → content ≤ start
      → content % 8 ≡ 0
      → start % 8 ≡ 0
      → std_for_each_in_range words content start stop
        ≡ some (keep (is_before stop) (keep is_from (std_addresses words content)))
  unfolding std_for_each_in_range
  std_for_each_in_range-keep words content h le aligned start_aligned =
      let i = map_index (start - content) in
      std_from-keep (from_index words i) (i * 64 + content) (from_index-AreBytes i words h)
        (omega (arith, le)) (omega (arith, le)) (omega (arith, aligned)) start_aligned
      ∙ ap (λ (l : List ℕ). some (keep (is_before stop) l))
          (sym (from_index-keep i words content (omega (arith, le))))

  pub short_for_each_in_range-keep :
      (tag content : ℕ)
      → content ≤ start
      → start < content + 512
      → content % 8 ≡ 0
      → start % 8 ≡ 0
      → short_for_each_in_range tag content start stop
        ≡ some (keep (is_before stop) (keep is_from (addresses 64 (tag % 2 ^ 63) content)))
  unfolding short_for_each_in_range
  short_for_each_in_range-keep tag content le lt aligned start_aligned =
      let k = ref_index (start - content) in
      let bits = tag % 2 ^ 63 in
      let there : content + 8 * k ≡ start = omega (arith, le, aligned, start_aligned) in
      let fits : leb 64 k ≡ false = ground (arith, lt) in
      let small : bits < 2 ^ 64 = omega arith in
      let shifted = shift-lt 64 k bits small in
      let (b, e, end) =
        range_loop-addresses 64 64 (gctib_shift bits k) start stop shifted shifted in
      let same =
        subst
          (λ (x : ℕ).
            keep (λ a. leb x a) (addresses 64 bits content) ≡ addresses 64 (gctib_shift bits k) x)
          there (addresses-shift k 64 bits content small) in
      ground (arith, fits, e, same)
