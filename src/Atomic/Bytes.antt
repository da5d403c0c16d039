-- ===== src/Atomic/Bytes.antt =====
-- Numbers of several bytes in memory.
use cjcj_runtime.Base.{
  ℕ, zero, suc, ◌+◌, ◌*◌, ◌/◌, ◌%◌, ◌^◌, ◌≤◌, ◌<◌, ◌≡◌, ◌⊎◌, refl, arith, inl, inr, ap, sym, ◌∙◌,
}
use native.Mathlib.Nat.{
  pow-succ', div-add-mod, mod-lt, mod-eq_of_lt, mul-add-mod_self_left, one-le-pow,
}
use cjcj_runtime.Atomic.{Memory, set_byte, read, write}

-- Every cell holds a byte.
abbrev pub IsBytes : Memory → Type 0
IsBytes m = (p : ℕ) → m p < 256

-- A write leaves the bytes outside its range alone.
pub write_outside : (n : ℕ) (m : Memory) (p v q : ℕ) → (q < p) ⊎ (p + n ≤ q) → write n m p v q ≡ m q
unfolding write
write_outside zero m p v q h = refl
write_outside (suc n) m p v q (inl h) =
    ground (arith, write_outside n m (suc p) (v / 256) q (inl (omega arith)))
write_outside (suc n) m p v q (inr h) =
    ground (arith, write_outside n m (suc p) (v / 256) q (inr (omega arith)))

-- A read depends on the bytes of its range alone.
pub read_cong :
    (n : ℕ) (m k : Memory) (p : ℕ)
    → ((q : ℕ) → p ≤ q → q < p + n → m q ≡ k q)
    → read n m p ≡ read n k p
unfolding read
read_cong zero m k p h = refl
read_cong (suc n) m k p h =
    let rest = read_cong n m k (suc p) (λ q a b. h q (omega arith) (omega arith)) in
    omega (arith, h p (omega arith) (omega arith), rest)

-- The lowest byte and the rest, each modulo its width.
mod_digits : (v w : ℕ) → 0 < w → v % 256 + 256 * ((v / 256) % w) ≡ v % (256 * w)
mod_digits v w pos =
    let x : ℕ = v % 256 + 256 * ((v / 256) % w) in
    let whole : v ≡ 256 * w * (v / 256 / w) + x =
      omega (arith, ap (λ (t : ℕ). 256 * t) (div-add-mod (v / 256) w)) in
    let small : x < 256 * w = grind (arith, mod-lt (v / 256) pos) in
    sym (
      ap (λ (t : ℕ). t % (256 * w)) whole
      ∙ mul-add-mod_self_left (256 * w) (v / 256 / w) x
      ∙ mod-eq_of_lt small)

-- What is read back is the number modulo the width.
pub read-write : (n : ℕ) (m : Memory) (p v : ℕ) → read n (write n m p v) p ≡ v % 256 ^ n
unfolding read write
read-write zero m p v = omega arith
read-write (suc n) m p v =
    let k : Memory = set_byte (write n m (suc p) (v / 256)) p (v % 256) in
    let rest : read n k (suc p) ≡ (v / 256) % 256 ^ n =
      read_cong n k (write n m (suc p) (v / 256)) (suc p) (λ q a b. ground arith)
      ∙ read-write n m (suc p) (v / 256) in
    rw (pow-succ' 256 n)
      (omega (arith, rest, mod_digits v (256 ^ n) (one-le-pow n 256 (omega arith)), here))
  where
    here : write (suc n) m p v p ≡ v % 256
    here = ground arith

-- The bytes of memory are bytes after a write.
pub write-IsBytes : (n : ℕ) (m : Memory) (p v : ℕ) → IsBytes m → IsBytes (write n m p v)
unfolding write
write-IsBytes zero m p v b q = b q
write-IsBytes (suc n) m p v b q = ground (arith, write-IsBytes n m (suc p) (v / 256) b q)

pub read-lt : (n : ℕ) (m : Memory) (p : ℕ) → IsBytes m → read n m p < 256 ^ n
unfolding read
read-lt zero m p b = omega arith
read-lt (suc n) m p b = omega (arith, read-lt n m (suc p) b, b p, pow-succ' 256 n)
