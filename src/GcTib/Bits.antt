-- ===== src/GcTib/Bits.antt =====
-- GCTib.cj, lines 79-104: the loops over the bits of one number.
use native.Mathlib.Nat.{pow-succ'}
use cjcj_runtime.Base.{
  ℕ, zero, suc, ◌+◌, ◌*◌, ◌/◌, ◌%◌, ◌^◌, ◌<◌, ◌≤◌, ◌≡◌, ◌⊎◌, refl, sym, ap, ◌∙◌, Bool, true, false,
  ◌==◌, leb, ltb, ◌&&◌, if◌then◌else◌, some, List, [], ◌∷◌, ◌++◌, arith, All, Bool-cases, inl, inr,
}
use cjcj_runtime.GcTib.{bits_loop, range_loop, visited, visited_in_range}

-- The addresses of the bits that are set among the `n` lowest.
abbrev pub addresses : ℕ → ℕ → ℕ → List ℕ
addresses zero bits address = []
addresses (suc n) bits address =
    let rest = addresses n (bits / 2) (address + 8) in
    if bits % 2 == 1 then address ∷ rest else rest

-- The addresses that pass a test.
abbrev pub keep : (ℕ → Bool) → List ℕ → List ℕ
keep p [] = []
keep p (a ∷ l) = if p a then a ∷ keep p l else keep p l

pub All-weaken : (P Q : ℕ → Type 0) → ((a : ℕ) → P a → Q a) → (l : List ℕ) → All P l → All Q l
All-weaken P Q f [] h = tt
All-weaken P Q f (x ∷ l) (p, h) = (f x p, All-weaken P Q f l h)

pub half : (n bits : ℕ) → bits < 2 ^ suc n → bits / 2 < 2 ^ n
half n bits h = omega (arith, h, pow-succ' 2 n)

addresses-zero : (n address : ℕ) → addresses n 0 address ≡ []
addresses-zero zero address = refl
addresses-zero (suc n) address = addresses-zero n (address + 8)

-- One round of each loop.
bits_loop-end : (n bits address : ℕ) → bits ≡ 0 → bits_loop (suc n) bits address ≡ some []
unfolding bits_loop
bits_loop-end n bits address e = rw e refl

bits_loop-round :
    (n bits address : ℕ)
    → (bits == 0) ≡ false
    → bits_loop (suc n) bits address ≡ visited bits address (bits_loop n (bits / 2) (address + 8))
unfolding bits_loop
bits_loop-round n bits address e = ground (arith, e)

range_loop-end :
    (n bits address stop : ℕ) → bits ≡ 0 → range_loop (suc n) bits address stop ≡ some ([], false)
unfolding range_loop
range_loop-end n bits address stop e = rw e refl

range_loop-stop :
    (n bits address stop : ℕ)
    → (bits == 0) ≡ false
    → leb stop address ≡ true
    → range_loop (suc n) bits address stop ≡ some ([], true)
unfolding range_loop
range_loop-stop n bits address stop e f = ground (arith, e, f)

range_loop-round :
    (n bits address stop : ℕ)
    → (bits == 0) ≡ false
    → leb stop address ≡ false
    → range_loop (suc n) bits address stop
      ≡ visited_in_range bits address (range_loop n (bits / 2) (address + 8) stop)
unfolding range_loop
range_loop-round n bits address stop e f = ground (arith, e, f)

-- With a round more than there are bits the loop ends, and visits what the bits say.
pub bits_loop-addresses :
    (n bits address : ℕ)
    → bits < 2 ^ n
    → bits_loop (suc n) bits address ≡ some (addresses n bits address)
bits_loop-addresses zero bits address h = bits_loop-end zero bits address (omega arith)
bits_loop-addresses (suc n) bits address h = elim (Bool-cases (bits == 0)) [
  | inl none_left ↦
      let e : bits ≡ 0 = ground (arith, none_left) in
      bits_loop-end (suc n) bits address e
      ∙ ap some (
          sym (addresses-zero (suc n) address)
          ∙ ap (λ (b : ℕ). addresses (suc n) b address) (sym e))
  | inr more ↦
      bits_loop-round (suc n) bits address more
      ∙ ap (visited bits address) (bits_loop-addresses n (bits / 2) (address + 8) (half n bits h))
]

-- All addresses lie between the first and the last.
pub addresses-bounds :
    (n bits address : ℕ)
    → All (λ (a : ℕ). (address ≤ a) × (a < address + 8 * n)) (addresses n bits address)
addresses-bounds zero bits address = tt
addresses-bounds (suc n) bits address =
    let rest =
      All-weaken (λ (a : ℕ). (address + 8 ≤ a) × (a < address + 8 + 8 * n))
        (λ (a : ℕ). (address ≤ a) × (a < address + 8 * suc n))
        (λ a (p, q). (omega (arith, p), omega (arith, q))) (addresses n (bits / 2) (address + 8))
        (addresses-bounds n (bits / 2) (address + 8)) in
    elim (Bool-cases (bits % 2 == 1)) [
      | inl set ↦ rw set (((omega arith), omega arith), rest)
      | inr clear ↦ rw clear rest
    ]

module _ (p : ℕ → Bool) where
  pub keep-append : (a b : List ℕ) → keep p (a ++ b) ≡ keep p a ++ keep p b
  keep-append [] b = refl
  keep-append (x ∷ a) b = ground (arith, keep-append a b)

  pub keep-all : (l : List ℕ) → All (λ (a : ℕ). p a ≡ true) l → keep p l ≡ l
  keep-all [] h = refl
  keep-all (x ∷ l) (e, h) = rw (e, keep-all l h) refl

  pub keep-none : (l : List ℕ) → All (λ (a : ℕ). p a ≡ false) l → keep p l ≡ []
  keep-none [] h = refl
  keep-none (x ∷ l) (e, h) = rw e (keep-none l h)

keep-if :
    (p : ℕ → Bool) (t : Bool) (x : ℕ) (l : List ℕ)
    → p x ≡ true
    → keep p (if t then x ∷ l else l) ≡ (if t then x ∷ keep p l else keep p l)
keep-if p true x l e = rw e refl
keep-if p false x l e = refl

pub keep-keep : (p q : ℕ → Bool) (l : List ℕ) → keep q (keep p l) ≡ keep (λ a. p a && q a) l
keep-keep p q [] = refl
keep-keep p q (x ∷ l) = ground (arith, keep-keep p q l)

range_loop-none :
    (n m bits address stop : ℕ)
    → bits ≡ 0
    → (b : Bool) × (range_loop (suc n) bits address stop
        ≡ some (keep (λ a. ltb a stop) (addresses n bits address), b))
      × ((b ≡ false) ⊎ (stop ≤ address + 8 * m))
range_loop-none n m bits address stop e = (
  false,
  range_loop-end n bits address stop e
      ∙ ap (λ (l : List ℕ). some (keep (λ a. ltb a stop) l, false))
          (sym (addresses-zero n address) ∙ ap (λ (b : ℕ). addresses n b address) (sym e)),
  inl refl,
)

-- The loop with an end visits the addresses before the end. If it has returned there, the end comes
-- before the last of `m` bits.
pub range_loop-addresses :
    (n m bits address stop : ℕ)
    → bits < 2 ^ n
    → bits < 2 ^ m
    → (b : Bool) × (range_loop (suc n) bits address stop
        ≡ some (keep (λ a. ltb a stop) (addresses n bits address), b))
      × ((b ≡ false) ⊎ (stop ≤ address + 8 * m))
range_loop-addresses zero m bits address stop h g =
    (false, range_loop-end zero bits address stop (omega arith), inl refl)
range_loop-addresses (suc n) zero bits address stop h g =
    range_loop-none (suc n) zero bits address stop (omega (arith, g))
range_loop-addresses (suc n) (suc m) bits address stop h g = elim (Bool-cases (bits == 0)) [
  | inl none_left ↦ range_loop-none (suc n) (suc m) bits address stop (ground (arith, none_left))
  | inr more ↦ elim (Bool-cases (leb stop address)) [
    | inl over ↦
        let late =
          All-weaken (λ (a : ℕ). (address ≤ a) × (a < address + 8 * suc n))
            (λ (a : ℕ). ltb a stop ≡ false) (λ a (p, q). ground (arith, over, p))
            (addresses (suc n) bits address) (addresses-bounds (suc n) bits address) in
        (
          true,
          range_loop-stop (suc n) bits address stop more over
              ∙ ap (λ (l : List ℕ). some (l, true))
                  (sym (keep-none (λ a. ltb a stop) (addresses (suc n) bits address) late)),
          inr (let le : stop ≤ address = ground (arith, over) in omega (arith, le)),
        )
    | inr before ↦
        let (b, f, end) =
          range_loop-addresses n m (bits / 2) (address + 8) stop (half n bits h) (half m bits g) in
        let here : ltb address stop ≡ true = ground (arith, before) in
        (
          b,
          range_loop-round (suc n) bits address stop more before
              ∙ ap (visited_in_range bits address) f
              ∙ ap (λ (l : List ℕ). some (l, b))
                  (sym (
                    keep-if (λ a. ltb a stop) (bits % 2 == 1) address
                      (addresses n (bits / 2) (address + 8)) here)),
          elim end [ inl e ↦ inl e | inr le ↦ inr (omega (arith, le)) ],
        )
  ]
]
