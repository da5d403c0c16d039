-- ===== src/GcTib/Range.antt =====
-- GCTib.cj, lines 134-175: the bytes of a bitmap.
pub mod Start
pub mod Fields
use mathlib.Core.List.{append-nil}
use cjcj_runtime.Base.{
  ℕ, ◌+◌, ◌-◌, ◌*◌, ◌%◌, ◌^◌, ◌<◌, ◌≤◌, ◌≡◌, ◌⊎◌, refl, sym, ap, ◌∙◌, Bool, true, false, ltb, some,
  List, [], ◌∷◌, ◌++◌, arith, All, inl, inr,
}
use cjcj_runtime.GcTib.{std_for_each, std_rest, unless_ended}
use cjcj_runtime.GcTib.Shift.{addresses-aligned}
use cjcj_runtime.GcTib.Bits.{
  addresses, keep, bits_loop-addresses, range_loop-addresses, addresses-bounds, keep-append,
  keep-none, All-weaken,
}

abbrev pub AreBytes : List ℕ → Type 0
AreBytes words = All (λ (w : ℕ). w < 2 ^ 8) words

-- The addresses of the bits that are set in bytes.
abbrev pub std_addresses : List ℕ → ℕ → List ℕ
std_addresses [] base = []
std_addresses (w ∷ words) base = addresses 8 w base ++ std_addresses words (base + 64)

All-both : (P : ℕ → Type 0) (a b : List ℕ) → All P a → All P b → All P (a ++ b)
All-both P [] b p q = q
All-both P (x ∷ a) b (h, p) q = (h, All-both P a b p q)

pub std_addresses-above :
    (k base : ℕ) (words : List ℕ) → k ≤ base → All (λ (a : ℕ). k ≤ a) (std_addresses words base)
std_addresses-above k base [] h = tt
std_addresses-above k base (w ∷ words) h =
    All-both (λ (a : ℕ). k ≤ a) (addresses 8 w base) (std_addresses words (base + 64))
      (All-weaken (λ (a : ℕ). (base ≤ a) × (a < base + 8 * 8)) (λ (a : ℕ). k ≤ a)
        (λ a (p, q). omega (arith, p, h)) (addresses 8 w base) (addresses-bounds 8 w base))
      (std_addresses-above k (base + 64) words (omega (arith, h)))

pub std_addresses-aligned :
    (base : ℕ) (words : List ℕ)
    → base % 8 ≡ 0
    → All (λ (a : ℕ). a % 8 ≡ 0) (std_addresses words base)
std_addresses-aligned base [] h = tt
std_addresses-aligned base (w ∷ words) h =
    All-both (λ (a : ℕ). a % 8 ≡ 0) (addresses 8 w base) (std_addresses words (base + 64))
      (addresses-aligned 8 w base h) (std_addresses-aligned (base + 64) words (omega (arith, h)))

pub std_for_each-addresses :
    (words : List ℕ) (base : ℕ)
    → AreBytes words
    → std_for_each words base ≡ some (std_addresses words base)
unfolding std_for_each
std_for_each-addresses [] base h = refl
std_for_each-addresses (w ∷ words) base (b, h) =
    rw (bits_loop-addresses 8 w base b, std_for_each-addresses words (base + 64) h) refl

module _ (stop : ℕ) where
  abbrev pub is_before : ℕ → Bool
  is_before a = ltb a stop

  -- A byte in the range, and what the bytes behind it give.
  pub unless_ended-keep :
      (b : Bool) (x rest : List ℕ)
      → (b ≡ false) ⊎ (keep is_before rest ≡ [])
      → unless_ended (some (keep is_before x, b)) (some (keep is_before rest))
        ≡ some (keep is_before (x ++ rest))
  unless_ended-keep false x rest h = ap some (sym (keep-append is_before x rest))
  unless_ended-keep true x rest (inl h) = absurd (cc h)
  unless_ended-keep true x rest (inr h) = ap some (
      sym (append-nil (keep is_before x))
      ∙ ap (◌++◌ (keep is_before x)) (sym h)
      ∙ sym (keep-append is_before x rest))

  pub behind :
      (words : List ℕ) (base : ℕ) → stop ≤ base → keep is_before (std_addresses words base) ≡ []
  behind words base h = keep-none is_before (std_addresses words base) (
      All-weaken (λ (a : ℕ). stop ≤ a) (λ (a : ℕ). is_before a ≡ false) (λ a p. ground (arith, p))
        (std_addresses words base) (std_addresses-above stop base words h))

  pub std_rest-keep :
      (words : List ℕ) (base : ℕ)
      → AreBytes words
      → std_rest words base stop ≡ some (keep is_before (std_addresses words base))
  unfolding std_rest
  std_rest-keep [] base h = refl
  std_rest-keep (w ∷ words) base (byte, h) =
      let (b, e, end) = range_loop-addresses 8 8 w base stop byte byte in
      let ends : (b ≡ false) ⊎ (keep is_before (std_addresses words (base + 64)) ≡ []) = elim end [
        | inl f ↦ inl f
        | inr le ↦ inr (behind words (base + 64) (omega (arith, le)))
      ] in
      rw (e, std_rest-keep words (base + 64) h)
        (unless_ended-keep b (addresses 8 w base) (std_addresses words (base + 64)) ends)
