-- ===== src/Base/Lists.antt =====
-- Lists measured and indexed by native numbers, under the library's names.
use Prim.Native.Nat.{ℕ, zero, suc, ◌+◌, ◌<◌, ◌≤◌}
use mathlib.Core.Path.{◌≡◌, refl}
use mathlib.Core.Bool.{Bool, true, false}
use mathlib.Core.List.{List, [], ◌∷◌, ◌++◌}
use mathlib.Core.List.{Memᴰ}
use mathlib.Core.List.Memᴰ.{head, tail}
use mathlib.Core.Logic.{◌≢◌, inl, inr}
use cjcj_runtime.Base.Tests.{if◌then◌else◌, Bool-cases}
use mathlib.Core.Option.{Option, none, some}
use native.Mathlib.Omega.{arith}

module _ {ℓ} {A : Type ℓ} where
  abbrev pub length : List A → ℕ
  length [] = 0
  length (x ∷ xs) = suc (length xs)

  abbrev pub get_elem? : List A → ℕ → Option A
  get_elem? [] i = none
  get_elem? (x ∷ xs) zero = some x
  get_elem? (x ∷ xs) (suc i) = get_elem? xs i

  pub length-append : (xs ys : List A) → length (xs ++ ys) ≡ length xs + length ys
  length-append [] ys = omega arith
  length-append (x ∷ xs) ys = omega (arith, length-append xs ys)

  -- A read within the list has a value, a read past it has none.
  pub get_elem?-some : (xs : List A) (i : ℕ) → i < length xs → (a : A) × (get_elem? xs i ≡ some a)
  get_elem?-some [] i h = absurd (omega arith)
  get_elem?-some (x ∷ xs) zero h = (x, refl)
  get_elem?-some (x ∷ xs) (suc i) h = get_elem?-some xs i (omega arith)

  pub get_elem?-none : (xs : List A) (i : ℕ) → length xs ≤ i → get_elem? xs i ≡ none
  get_elem?-none [] i h = refl
  get_elem?-none (x ∷ xs) zero h = absurd (omega arith)
  get_elem?-none (x ∷ xs) (suc i) h = get_elem?-none xs i (omega arith)

  pub get_elem?-some-lt : (xs : List A) (i : ℕ) (a : A) → get_elem? xs i ≡ some a → i < length xs
  get_elem?-some-lt [] i a h = cc
  get_elem?-some-lt (x ∷ xs) zero a h = omega arith
  get_elem?-some-lt (x ∷ xs) (suc i) a h = omega (arith, get_elem?-some-lt xs i a h)

  -- A read behind a prefix is a read of what follows it.
  pub get_elem?-append :
      (xs ys : List A) (i j : ℕ) → i ≡ length xs + j → get_elem? (xs ++ ys) i ≡ get_elem? ys j
  get_elem?-append [] ys i j h = ground arith
  get_elem?-append (x ∷ xs) ys zero j h = absurd (omega arith)
  get_elem?-append (x ∷ xs) ys (suc i) j h = get_elem?-append xs ys i j (omega arith)

-- The first element that passes a test.
abbrev pub find_first {ℓ} : {A : Type ℓ} → (A → Bool) → List A → Option A
find_first p [] = none
find_first p (x ∷ xs) = if p x then some x else find_first p xs

module _ {ℓ} {A : Type ℓ} (p : A → Bool) where
  -- What is found is in the list and passes the test.
  pub find_first-Mem : (xs : List A) (a : A) → find_first p xs ≡ some a → Memᴰ a xs × (p a ≡ true)
  find_first-Mem [] a h = absurd (cc)
  find_first-Mem (x ∷ xs) a h = elim (Bool-cases (p x)) [
    | inl t ↦ (head (ground arith), ground arith)
    | inr f ↦ let rest = find_first-Mem xs a (ground arith) in (tail rest.0, rest.1)
  ]

  -- Nothing is found only where nothing passes.
  pub find_first-none : (xs : List A) → find_first p xs ≡ none → (a : A) → Memᴰ a xs → p a ≡ false
  find_first-none [] h a m = elim m [ ]
  find_first-none (x ∷ xs) h a (head e) = ground arith
  find_first-none (x ∷ xs) h a (tail m) = ground (arith, find_first-none xs (ground arith) a m)

  pub find_first-some : (xs : List A) (a : A) → Memᴰ a xs → p a ≡ true → find_first p xs ≢ none
  find_first-some xs a m t h = cc (find_first-none xs h a m)

-- A predicate on every element, which computes to a tuple.
abbrev pub All {ℓ κ} : {A : Type ℓ} → (A → Type κ) → List A → Type κ
All P [] = Unit
All P (x ∷ xs) = P x × All P xs
