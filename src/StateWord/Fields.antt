-- ===== src/StateWord/Fields.antt =====
-- StateWord.cj, lines 62-67 and 230-252: the fields of the word.
use cjcj_runtime.Base.{ℕ, ◌+◌, ◌/◌, ◌%◌, ◌^◌, ◌<◌, ◌≤◌, ◌≡◌, ◌⊎◌, ◌∙◌, inl, inr, arith, add64}
use cjcj_runtime.Atomic.{Memory, read, write}
use cjcj_runtime.Atomic.Bytes.{IsBytes, read-lt, read_cong, read-write, write_outside}
use cjcj_runtime.StateWord.{
  with_code, get_state_code, set_state_code, get_type_info, set_type_info, get_object_state,
}

-- A read of bytes that a write leaves alone.
read-write_apart :
    (k n : ℕ) (m : Memory) (q p v : ℕ)
    → (q + k ≤ p) ⊎ (p + n ≤ q)
    → read k (write n m p v) q ≡ read k m q
read-write_apart k n m q p v (inl h) =
    read_cong k (write n m p v) m q (λ x a b. write_outside n m p v x (inl (omega arith)))
read-write_apart k n m q p v (inr h) =
    read_cong k (write n m p v) m q (λ x a b. write_outside n m p v x (inr (omega arith)))

module _ (m : Memory) (p : ℕ) (fits : p + 8 ≤ 2 ^ 64) where
  -- In a word that lies below 2 ^ 64 a TypeInfo's address of at most 48 bits is read as it was set,
  -- and the state of the object stays.
  pub get_type_info-set_type_info :
      (address : ℕ)
      → address < 2 ^ 48
      → (get_type_info (set_type_info m p address) p ≡ address)
        × (get_object_state (set_type_info m p address) p ≡ get_object_state m p)
  unfolding get_type_info set_type_info get_object_state
  get_type_info-set_type_info address small =
      let low = address % 2 ^ 32 in
      let high = (address / 2 ^ 32) % 2 ^ 16 in
      let h = add64 p 4 in
      let k = write 4 m p low in
      let e = read-write 2 k h high in
      let f = read-write_apart 4 2 k p h high (inl (omega (arith, fits))) ∙ read-write 4 m p low in
      let g =
        read-write_apart 2 2 k (add64 p 6) h high (inr (omega (arith, fits)))
        ∙ read-write_apart 2 4 m (add64 p 6) p low (inr (omega (arith, fits))) in
      (omega (arith, e, f, small), g)

  -- In a word that lies below 2 ^ 64 a state code below 4 is read as it was set; the other bits of the
  -- state and the TypeInfo stay.
  pub get_state_code-set_state_code :
      (state : ℕ)
      → state < 4
      → IsBytes m
      → (get_state_code (set_state_code m p state) p ≡ state)
        × (get_object_state (set_state_code m p state) p / 4 ≡ get_object_state m p / 4)
        × (get_type_info (set_state_code m p state) p ≡ get_type_info m p)
  unfolding get_type_info set_state_code get_object_state get_state_code
  get_state_code-set_state_code state small bytes =
      let a = add64 p 6 in
      let old = read 2 m a in
      let new = with_code old state in
      let two_bytes = read-lt 2 m a bytes in
      let e = read-write 2 m a new in
      let f = read-write_apart 2 2 m (add64 p 4) a new (inl (omega (arith, fits))) in
      let g = read-write_apart 4 2 m p a new (inl (omega (arith, fits))) in
      (omega (arith, e, small, two_bytes), omega (arith, e, small, two_bytes), omega (arith, f, g))
