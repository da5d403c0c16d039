-- ===== src/Windows/Unwind/Offset.antt =====
-- What `GetStackOffset` computes.
use mathlib.Core.List.{append_assoc}
use cjcj_runtime.Base.{
  ℕ, zero, suc, ◌+◌, ◌*◌, ◌/◌, ◌%◌, ◌^◌, ◌<◌, ◌≤◌, ◌≡◌, refl, List, [], ◌∷◌, ◌++◌, some, arith,
  length, get_elem?, length-append, get_elem?-append, add32, ap, sym, ◌∙◌,
}
use cjcj_runtime.Windows.Unwind.Prologue.{
  Op, push, alloc_small, alloc_scaled, alloc_far, IsEncodable, pushed, frame_size, allocations,
  push_machine_frame, machine_frames, code, operand, number, info, tail_codes, encode_op, encode,
}
use cjcj_runtime.Windows.Unwind.{
  UnwindCode, UnwindInfo, op_code, frame_offset, get_unwind_op, get_op_info, Totals, tally,
  get_slots_num, offset_loop, get_stack_offset, offset, slots,
}

info-lt : (o : Op) → IsEncodable o → info o < 16
info-lt (push r) h = h
info-lt o h = ground arith

get_op_info-code : (at op i : ℕ) → op < 16 → i < 16 → get_op_info (code at op i) ≡ i
unfolding get_op_info
get_op_info-code at op i p q = omega arith

get_unwind_op-code : (at op i : ℕ) → op < 16 → i < 16 → get_unwind_op (code at op i) ≡ op_code op
unfolding get_unwind_op
get_unwind_op-code at op i p q = let low : (i * 16 + op) % 16 ≡ op = omega arith in ap op_code low

frame_offset-operand : (n : ℕ) → n < 2 ^ 16 → frame_offset (operand n) ≡ n
unfolding frame_offset
frame_offset-operand n h = omega arith

-- What an operation adds to the totals.
abbrev next : Op → Totals → Totals
next (push r) t = record t { push_reg_offset = add32 t.push_reg_offset 8 }
next (alloc_small n) t = record t { alloc_size = 8 * n + 8 }
next (alloc_scaled n) t = record t { alloc_size = 8 * n }
next (alloc_far n) t = record t { alloc_size = n }
next _ t = t

number-lt : (o : Op) → number o < 16
number-lt (push r) = omega arith
number-lt o = omega arith

slots-op : (o : Op) → slots (op_code (number o)) (info o) ≡ some (suc (length (tail_codes o)))
unfolding slots
slots-op (push r) = refl
slots-op o = refl

module _ (codes : List UnwindCode) (i : ℕ) (t : Totals) where
  tally-op :
      (o : Op) (rest : List UnwindCode)
      → IsEncodable o
      → (get_elem? codes (i + 1) ≡ get_elem? (tail_codes o ++ rest) 0)
      → (get_elem? codes (i + 2) ≡ get_elem? (tail_codes o ++ rest) 1)
      → tally (op_code (number o)) codes i (info o) t ≡ some (next o t)
  unfolding tally
  tally-op (push r) rest h a b = refl
  tally-op (alloc_far n) rest h a b =
      ground (arith, frame_offset-operand (n % 2 ^ 16), frame_offset-operand (n / 2 ^ 16))
  tally-op (alloc_scaled n) rest h a b = ground (arith, frame_offset-operand n)
  tally-op (alloc_small n) rest h a b = ground arith
  tally-op o rest h a b = refl

  -- One round of the loop reads one operation and passes all its codes.
  round-op :
      (count fuel at : ℕ) (o : Op) (pre rest : List UnwindCode)
      → IsEncodable o
      → codes ≡ pre ++ (encode_op at o ++ rest)
      → i ≡ length pre
      → i < count
      → offset_loop codes count (suc fuel) i t
        ≡ offset_loop codes count fuel (i + suc (length (tail_codes o))) (next o t)
  unfolding offset_loop get_slots_num
  round-op count fuel at o pre rest h shape e lt = ground (
    arith,
    read 0 i (omega arith),
    get_unwind_op-code at (number o) (info o) (number-lt o) (info-lt o h),
    get_op_info-code at (number o) (info o) (number-lt o) (info-lt o h),
    tally-op o rest h (read 1 (i + 1) (omega arith)) (read 2 (i + 2) (omega arith)),
    slots-op o,
  )
    where
      read :
          (j k : ℕ) → k ≡ length pre + j → get_elem? codes k ≡ get_elem? (encode_op at o ++ rest) j
      read j k q = rw shape (get_elem?-append pre (encode_op at o ++ rest) k j q)

-- The size of the last allocation of a prologue, or `a` if it has none.
abbrev pub last_alloc : ℕ → List (ℕ × Op) → ℕ
last_alloc a [] = a
last_alloc a ((at, push r) ∷ os) = last_alloc a os
last_alloc a ((at, alloc_small n) ∷ os) = last_alloc (8 * n + 8) os
last_alloc a ((at, alloc_scaled n) ∷ os) = last_alloc (8 * n) os
last_alloc a ((at, alloc_far n) ∷ os) = last_alloc n os
last_alloc a ((at, o) ∷ os) = last_alloc a os

abbrev pub all_pushed : List (ℕ × Op) → ℕ
all_pushed [] = 0
all_pushed ((at, o) ∷ os) = pushed o + all_pushed os

abbrev pub AllEncodable : List (ℕ × Op) → Type 0
AllEncodable [] = Unit {0}
AllEncodable ((at, o) ∷ os) = IsEncodable o × AllEncodable os

next_totals :
    (o : Op) (at : ℕ) (os : List (ℕ × Op)) (t : Totals)
    → (last_alloc (next o t).alloc_size os + ((next o t).push_reg_offset + all_pushed os)) % 2 ^ 32
      ≡ (last_alloc t.alloc_size ((at, o) ∷ os) + (t.push_reg_offset + all_pushed ((at, o) ∷ os)))
        % 2 ^ 32
next_totals (push r) at os t = omega arith
next_totals o at os t = omega arith

loop-encode :
    (codes : List UnwindCode) (os : List (ℕ × Op)) (fuel i : ℕ) (pre : List UnwindCode) (t : Totals)
    → AllEncodable os
    → codes ≡ pre ++ encode os
    → i ≡ length pre
    → length (encode os) < fuel
    → offset_loop codes (length codes) fuel i t
      ≡ offset ((last_alloc t.alloc_size os + (t.push_reg_offset + all_pushed os)) % 2 ^ 32)
unfolding encode offset_loop
loop-encode codes [] zero i pre t h shape e f = absurd (omega arith)
loop-encode codes [] (suc fuel) i pre t h shape e f =
    let whole : length codes ≡ i = omega (arith, ap length shape, length-append pre (encode [])) in
    ground arith
loop-encode codes ((at, o) ∷ os) zero i pre t h shape e f = absurd (omega arith)
loop-encode codes ((at, o) ∷ os) (suc fuel) i pre t h shape e f =
    let bound : i + suc (length (tail_codes o)) ≤ length codes = omega (
      arith,
      ap length shape,
      length-append pre (encode_op at o ++ encode os),
      length-append (encode_op at o) (encode os),
    ) in
    round-op codes i t (length codes) fuel at o pre (encode os) h.0 shape e (omega arith)
    ∙ loop-encode codes os fuel (i + suc (length (tail_codes o))) (pre ++ encode_op at o) (next o t)
        h.1 (shape ∙ sym (append_assoc pre (encode_op at o) (encode os)))
        (omega (arith, length-append pre (encode_op at o)))
        (omega (arith, length-append (encode_op at o) (encode os)))
    ∙ ap offset (next_totals o at os t)

-- The unwind information of a prologue.
abbrev pub Describes : UnwindInfo → List (ℕ × Op) → Type 0
Describes u os = (u.unwind_codes ≡ encode os) × (u.codes_count ≡ length (encode os))

-- For the codes of any prologue the loop ends without reading past them, and its result is the
-- bytes of all pushed registers and of the last allocation, modulo 2 ^ 32.
pub get_stack_offset-encode :
    (u : UnwindInfo) (os : List (ℕ × Op))
    → Describes u os
    → AllEncodable os
    → get_stack_offset u ≡ offset ((last_alloc 0 os + all_pushed os) % 2 ^ 32)
unfolding get_stack_offset
get_stack_offset-encode u os d h =
    rw (d.0, d.1)
      (loop-encode (encode os) os (suc (length (encode os))) 0 [] _ h refl refl (omega arith)
        ∙ ap offset (omega arith))

no_alloc :
    (a : ℕ) (os : List (ℕ × Op))
    → allocations os ≡ 0
    → machine_frames os ≡ 0
    → last_alloc a os + all_pushed os ≡ a + frame_size os
no_alloc a [] h n = refl
no_alloc a ((at, push r) ∷ os) h n = omega (arith, no_alloc a os)
no_alloc a ((at, push_machine_frame e) ∷ os) h n = absurd (omega arith)
no_alloc a ((at, o) ∷ os) h n = omega (arith, no_alloc a os)

one_alloc :
    (os : List (ℕ × Op))
    → allocations os ≤ 1
    → machine_frames os ≡ 0
    → last_alloc 0 os + all_pushed os ≡ frame_size os
one_alloc [] h n = refl
one_alloc ((at, alloc_small n) ∷ os) h m = omega (arith, no_alloc (8 * n + 8) os)
one_alloc ((at, alloc_scaled n) ∷ os) h m = omega (arith, no_alloc (8 * n) os)
one_alloc ((at, alloc_far n) ∷ os) h m = omega (arith, no_alloc n os)
one_alloc ((at, push_machine_frame e) ∷ os) h m = absurd (omega arith)
one_alloc ((at, o) ∷ os) h m = omega (arith, one_alloc os)

-- Where the unwind codes are those of a prologue whose operands fit the format, and which allocates
-- at most once, has no machine frame and has a frame smaller than 2 ^ 32 bytes, `GetStackOffset` ends without reading past the codes,
-- and its result is the number of bytes by which the prologue moves the stack pointer.
pub get_stack_offset-frame_size :
    (u : UnwindInfo) (os : List (ℕ × Op))
    → Describes u os
    → AllEncodable os
    → allocations os ≤ 1
    → machine_frames os ≡ 0
    → frame_size os < 2 ^ 32
    → get_stack_offset u ≡ offset (frame_size os)
get_stack_offset-frame_size u os d h one no_trap small =
    get_stack_offset-encode u os d h ∙ ap offset (omega (arith, one_alloc os))
