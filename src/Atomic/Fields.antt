-- ===== src/Atomic/Fields.antt =====
-- The operations of the field wrappers, by the value that a field holds.
use cjcj_runtime.Base.{
  ℕ, ◌+◌, ◌%◌, ◌^◌, ◌≤◌, ◌<◌, ◌≡◌, ◌⊎◌, arith, ◌==◌, if◌then◌else◌, inl, inr, some, true, ◌∙◌, ap,
  Bool-cases,
}
use native.Mathlib.Nat.{mod-eq_of_lt}
use cjcj_runtime.Atomic.Bytes.{IsBytes, write_outside, read_cong, read-write, read-lt}
use cjcj_runtime.Atomic.{
  Memory, read, write, is_size, field_load, field_store, field_compare_exchange, field_exchange,
  field_fetch, FetchOp, apply_op, fetch, exchange, compare_exchange,
}

-- The ranges of `n` bytes from `p` and from `q` do not meet.
abbrev pub Apart : ℕ → ℕ → ℕ → Type 0
Apart n p q = (p + n ≤ q) ⊎ (q + n ≤ p)

-- A write does not show in a range apart from it.
read-write-Apart :
    (n : ℕ) (m : Memory) (p q v : ℕ) → Apart n p q → read n (write n m p v) q ≡ read n m q
read-write-Apart n m p q v (inl h) =
    read_cong n (write n m p v) m q (λ c a b. write_outside n m p v c (inr (omega arith)))
read-write-Apart n m p q v (inr h) =
    read_cong n (write n m p v) m q (λ c a b. write_outside n m p v c (inl (omega arith)))

swap : (n p q : ℕ) → Apart n p q → Apart n q p
swap n p q (inl h) = inr h
swap n p q (inr h) = inl h

module _ (m : Memory) (bytes : IsBytes m) where
  read_back : (n p q : ℕ) → read n (write n m p (read n m q)) p ≡ read n m q
  read_back n p q = read-write n m p (read n m q) ∙ mod-eq_of_lt (read-lt n m q bytes)

  -- For every size that the code knows, a load after a store gives the value stored, and every
  -- byte outside the field is as before.
  pub field_load-field_store :
      (p value size : ℕ)
      → is_size size ≡ true
      → (k : Memory) × (field_store m p value size ≡ some k)
        × (field_load k p size ≡ field_load m value size)
        × ((q : ℕ) → (q < p) ⊎ (p + size ≤ q) → k q ≡ m q)
  unfolding field_store field_load
  field_load-field_store p value size known = (
    write size m p (read size m value),
    rw known,
    rw known (ap some (read_back size p value)),
    λ q h. write_outside size m p (read size m value) q h,
  )

  -- The compare-exchange of a field whose expected value lies apart from it. If the two are equal,
  -- the field gets the desired value and the expected one stays; if not, the field stays and the
  -- expected value becomes that of the field.
  pub field_compare_exchange_lem :
      (p expected desired size : ℕ)
      → is_size size ≡ true
      → Apart size p expected
      → let equal = read size m p == read size m expected in
        (k : Memory) × (field_compare_exchange m p expected desired size ≡ some (k, equal))
        × (read size k p ≡ read size m (if equal then desired else p))
        × (read size k expected ≡ read size m (if equal then expected else p))
  unfolding field_compare_exchange compare_exchange
  field_compare_exchange_lem p expected desired size known apart =
      elim (Bool-cases (read size m p == read size m expected)) [
        | inl same ↦ (
          write size m p (read size m desired),
          ground arith,
          ground (arith, read_back size p desired),
          ground (arith, read-write-Apart size m p expected (read size m desired) apart),
        )
        | inr other ↦ (
          write size m expected (read size m p),
          ground arith,
          ground (
            arith,
            read-write-Apart size m expected p (read size m p) (swap size p expected apart),
          ),
          ground (arith, read_back size expected p),
        )
      ]

  -- Every operation that returns the old value does so, and leaves in the field the desired value
  -- or the result of the operation on the old value and the operand, modulo the width.
  pub field_updates :
      (p operand size : ℕ) (o : FetchOp)
      → is_size size ≡ true
      → ((k : Memory) × (field_exchange m p operand size ≡ some (k, read size m p))
          × (read size k p ≡ read size m operand))
        × ((k : Memory) × (field_fetch o m p operand size ≡ some (k, read size m p))
            × (read size k p
                ≡ apply_op o (256 ^ size) (read size m p) (read size m operand) % 256 ^ size))
  unfolding field_exchange field_fetch exchange fetch
  field_updates p operand size o known = (
    (write size m p (read size m operand), rw known, read_back size p operand),
    (
      write size m p (apply_op o (256 ^ size) (read size m p) (read size m operand)),
      rw known,
      read-write size m p _,
    ),
  )
