-- ===== src/GcTib/Shift.antt =====
-- GCTib.cj, lines 90-103: a bitmap that is shifted to the start of a range.
use mathlib.Core.Path.{subst}
use native.Mathlib.Nat.{pow-succ', div-div-eq-div-mul, div-le_self}
use cjcj_runtime.Base.{
  ℕ, zero, suc, ◌+◌, ◌*◌, ◌/◌, ◌%◌, ◌^◌, ◌<◌, ◌≤◌, ◌≡◌, refl, sym, ap, ◌∙◌, Bool, true, false, ◌==◌,
  leb, if◌then◌else◌, List, ◌∷◌, arith, All, Bool-cases, inl, inr,
}
use cjcj_runtime.GcTib.{gctib_shift}
use cjcj_runtime.GcTib.Bits.{addresses, keep, addresses-bounds, keep-all, All-weaken, half}

-- A bit more that is not set changes nothing.
addresses-more :
    (n bits address : ℕ) → bits < 2 ^ n → addresses (suc n) bits address ≡ addresses n bits address
addresses-more zero bits address h = let e : bits ≡ 0 = omega arith in rw e refl
addresses-more (suc n) bits address h =
    ap (λ (l : List ℕ). if bits % 2 == 1 then address ∷ l else l)
      (addresses-more n (bits / 2) (address + 8) (half n bits h))

keep-if_not :
    (p : ℕ → Bool) (t : Bool) (x : ℕ) (l : List ℕ)
    → p x ≡ false
    → keep p (if t then x ∷ l else l) ≡ keep p l
keep-if_not p true x l e = rw e refl
keep-if_not p false x l e = refl

pub shift-lt : (n k bits : ℕ) → bits < 2 ^ n → gctib_shift bits k < 2 ^ n
unfolding gctib_shift
shift-lt n k bits h = omega (arith, div-le_self bits (2 ^ k), h)

shift-zero : (bits : ℕ) → gctib_shift bits 0 ≡ bits
unfolding gctib_shift
shift-zero bits = omega arith

shift-half : (k bits : ℕ) → gctib_shift (bits / 2) k ≡ gctib_shift bits (suc k)
unfolding gctib_shift
shift-half k bits =
    div-div-eq-div-mul bits 2 (2 ^ k) ∙ ap (λ (w : ℕ). bits / w) (sym (pow-succ' 2 k))

-- The bits from number `k` on give the addresses from there on.
pub addresses-shift :
    (k n bits address : ℕ)
    → bits < 2 ^ n
    → keep (λ a. leb (address + 8 * k) a) (addresses n bits address)
      ≡ addresses n (gctib_shift bits k) (address + 8 * k)
addresses-shift zero n bits address h =
    let start : address + 8 * 0 ≡ address = omega arith in
    let late =
      All-weaken (λ (a : ℕ). (address ≤ a) × (a < address + 8 * n))
        (λ (a : ℕ). leb (address + 8 * 0) a ≡ true) (λ a (p, q). ground (arith, start, p))
        (addresses n bits address) (addresses-bounds n bits address) in
    keep-all (λ a. leb (address + 8 * 0) a) (addresses n bits address) late
    ∙ ap (λ (b : ℕ). addresses n b address) (sym (shift-zero bits))
    ∙ ap (addresses n (gctib_shift bits 0)) (sym start)
addresses-shift (suc k) zero bits address h = refl
addresses-shift (suc k) (suc n) bits address h =
    let low : leb (address + 8 * suc k) address ≡ false = ground arith in
    let there : address + 8 + 8 * k ≡ address + 8 * suc k = omega arith in
    let ih = addresses-shift k n (bits / 2) (address + 8) (half n bits h) in
    let small : gctib_shift bits (suc k) < 2 ^ n =
      omega (arith, shift-half k bits, shift-lt n k (bits / 2) (half n bits h)) in
    keep-if_not (λ a. leb (address + 8 * suc k) a) (bits % 2 == 1) address
      (addresses n (bits / 2) (address + 8)) low
    ∙ subst
        (λ (x : ℕ).
          keep (λ a. leb x a) (addresses n (bits / 2) (address + 8))
          ≡ addresses n (gctib_shift (bits / 2) k) x)
        there ih
    ∙ ap (λ (b : ℕ). addresses n b (address + 8 * suc k)) (shift-half k bits)
    ∙ sym (addresses-more n (gctib_shift bits (suc k)) (address + 8 * suc k) small)

pub shift-below : (k m bits : ℕ) → bits < 2 ^ (k + m) → gctib_shift bits k < 2 ^ m
shift-below zero m bits h =
    let e : 0 + m ≡ m = omega arith in
    subst (λ (x : ℕ). x < 2 ^ m) (sym (shift-zero bits)) (subst (λ (x : ℕ). bits < 2 ^ x) e h)
shift-below (suc k) m bits h =
    let e : suc k + m ≡ suc (k + m) = omega arith in
    subst (λ (x : ℕ). x < 2 ^ m) (shift-half k bits)
      (shift-below k m (bits / 2) (half (k + m) bits (subst (λ (x : ℕ). bits < 2 ^ x) e h)))

-- Every address is aligned if the first is.
pub addresses-aligned :
    (n bits address : ℕ) → address % 8 ≡ 0 → All (λ (a : ℕ). a % 8 ≡ 0) (addresses n bits address)
addresses-aligned zero bits address h = tt
addresses-aligned (suc n) bits address h =
    let rest = addresses-aligned n (bits / 2) (address + 8) (omega (arith, h)) in
    elim (Bool-cases (bits % 2 == 1)) [ inl set ↦ rw set (h, rest) | inr clear ↦ rw clear rest ]
