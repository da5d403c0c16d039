-- ===== src/Windows/Unwind/Prologue.antt =====
-- Function prologues as the operations that they perform on the stack, independently of their
-- encoding, and the codes that the x64 unwind format gives them.
use cjcj_runtime.Base.{◌^◌, ℕ, ◌+◌, ◌*◌, ◌/◌, ◌%◌, ◌<◌, List, [], ◌∷◌, ◌++◌}
use cjcj_runtime.Windows.Unwind.{UnwindCode}

-- The operations that `GetSlotsNum` accepts. Registers and save slots are kept, they do not move the
-- stack pointer. A machine frame is pushed by the processor, with an error code for the operand 1.
pub data Op : Type 0 where
  push : ℕ → Op
  alloc_small : ℕ → Op
  alloc_scaled : ℕ → Op
  alloc_far : ℕ → Op
  set_fp : ℕ → Op
  save : ℕ → ℕ → Op
  save_far : ℕ → ℕ → Op
  save_xmm : ℕ → ℕ → Op
  save_xmm_far : ℕ → ℕ → Op
  push_machine_frame : ℕ → Op

-- The operands that the format can hold: a register has four bits, an allocation of `8 * n + 8`
-- bytes fits the four bits of `alloc_small`, and so on.
abbrev pub IsEncodable : Op → Type 0
IsEncodable (push r) = r < 16
IsEncodable (alloc_small n) = n < 16
IsEncodable (alloc_scaled n) = n < 2 ^ 16
IsEncodable (alloc_far n) = n < 2 ^ 32
IsEncodable (set_fp r) = r < 16
IsEncodable (save r n) = (r < 16) × (n < 2 ^ 16)
IsEncodable (save_far r n) = (r < 16) × (n < 2 ^ 32)
IsEncodable (save_xmm r n) = (r < 16) × (n < 2 ^ 16)
IsEncodable (save_xmm_far r n) = (r < 16) × (n < 2 ^ 32)
IsEncodable (push_machine_frame e) = e < 2

-- The bytes by which an operation moves the stack pointer down: for a register, for a machine frame
-- of five words and its error code, and for an allocation.
abbrev pub pushed : Op → ℕ
pushed (push r) = 8
pushed _ = 0

abbrev pub framed : Op → ℕ
framed (push_machine_frame e) = 40 + 8 * e
framed _ = 0

abbrev pub allocated : Op → ℕ
allocated (alloc_small n) = 8 * n + 8
allocated (alloc_scaled n) = 8 * n
allocated (alloc_far n) = n
allocated _ = 0

abbrev pub frame_size : List (ℕ × Op) → ℕ
frame_size [] = 0
frame_size ((at, o) ∷ os) = pushed o + framed o + allocated o + frame_size os

abbrev pub allocates : Op → ℕ
allocates (alloc_small n) = 1
allocates (alloc_scaled n) = 1
allocates (alloc_far n) = 1
allocates _ = 0

abbrev pub allocations : List (ℕ × Op) → ℕ
allocations [] = 0
allocations ((at, o) ∷ os) = allocates o + allocations os

abbrev pub machine_frames : List (ℕ × Op) → ℕ
machine_frames [] = 0
machine_frames ((at, push_machine_frame e) ∷ os) = 1 + machine_frames os
machine_frames ((at, o) ∷ os) = machine_frames os

-- A code at prologue offset `at`, for operation number `op` with operand `info`.
abbrev pub code : ℕ → ℕ → ℕ → UnwindCode
code at op info = record { code_offset = at; unwind_op_and_op_info = info * 16 + op }

-- A 16-bit operand in a code of its own.
abbrev pub operand : ℕ → UnwindCode
operand n = record { code_offset = n % 256; unwind_op_and_op_info = n / 256 }

-- A 32-bit operand, its low half first.
abbrev pub operands : ℕ → List UnwindCode
operands n = operand (n % 2 ^ 16) ∷ operand (n / 2 ^ 16) ∷ []

abbrev pub number : Op → ℕ
number (push r) = 0
number (alloc_scaled n) = 1
number (alloc_far n) = 1
number (alloc_small n) = 2
number (set_fp r) = 3
number (save r n) = 4
number (save_far r n) = 5
number (save_xmm r n) = 8
number (save_xmm_far r n) = 9
number (push_machine_frame e) = 10

abbrev pub info : Op → ℕ
info (push r) = r
info (alloc_scaled n) = 0
info (alloc_far n) = 1
info (alloc_small n) = n
info (set_fp r) = r
info (save r n) = r
info (save_far r n) = r
info (save_xmm r n) = r
info (save_xmm_far r n) = r
info (push_machine_frame e) = e

abbrev pub tail_codes : Op → List UnwindCode
tail_codes (push r) = []
tail_codes (alloc_scaled n) = operand n ∷ []
tail_codes (alloc_far n) = operands n
tail_codes (alloc_small n) = []
tail_codes (set_fp r) = []
tail_codes (save r n) = operand n ∷ []
tail_codes (save_far r n) = operands n
tail_codes (save_xmm r n) = operand n ∷ []
tail_codes (save_xmm_far r n) = operands n
tail_codes (push_machine_frame e) = []

abbrev pub encode_op : ℕ → Op → List UnwindCode
encode_op at o = code at (number o) (info o) ∷ tail_codes o

-- The codes of a prologue, each with its offset in the code of the function.
unfoldable pub encode : List (ℕ × Op) → List UnwindCode
encode [] = []
encode ((at, o) ∷ os) = encode_op at o ++ encode os
