-- ===== src/Windows/Unwind.antt =====
-- rt0/os/Windows/UnwindWin.h and UnwindWin.cpp, lines 24-74: the unwind codes of a function and
-- the size of the stack frame that they describe.
pub mod Prologue
pub mod Offset
use cjcj_runtime.Base.{
  ℕ, zero, suc, ◌+◌, ◌*◌, ◌/◌, ◌%◌, ◌^◌, List, Option, none, some, ltb, ◌==◌, if◌then◌else◌, true,
  false, get_elem?, add32,
}

-- `invalid` stands for the values 11 to 15, which have no enumerator.
pub data UnwindOpCodes : Type 0 where
  push_non_vol alloc_large alloc_small set_fp_reg save_non_vol save_non_vol_far : UnwindOpCodes
  epilog spare_code save_xmm128 save_xmm128_far push_mach_frame invalid : UnwindOpCodes

abbrev pub op_code : ℕ → UnwindOpCodes
op_code n =
    if n == 0
    then push_non_vol
    else if n == 1
    then alloc_large
    else if n == 2
    then alloc_small
    else if n == 3
    then set_fp_reg
    else if n == 4
    then save_non_vol
    else if n == 5
    then save_non_vol_far
    else if n == 6
    then epilog
    else if n == 7
    then spare_code
    else if n == 8
    then save_xmm128
    else if n == 9
    then save_xmm128_far
    else if n == 10
    then push_mach_frame
    else invalid

-- The union of two bytes and one 16-bit number, by its bytes.
pub record UnwindCode : Type 0 where
  pub code_offset : ℕ
  pub unwind_op_and_op_info : ℕ

-- The two bytes read as a little-endian `uint16_t`.
unfoldable pub frame_offset : UnwindCode → ℕ
frame_offset c = c.code_offset + 256 * c.unwind_op_and_op_info

-- `& 0x0f` keeps the low four bits, `>> 4` drops them.
unfoldable pub get_unwind_op : UnwindCode → UnwindOpCodes
get_unwind_op c = op_code (c.unwind_op_and_op_info % 16)

unfoldable pub get_op_info : UnwindCode → ℕ
get_op_info c = c.unwind_op_and_op_info / 16 % 16

-- `unwind_codes` is what lies behind the declared array of one code.
pub record UnwindInfo : Type 0 where
  pub version_and_flags : ℕ
  pub prolog_size : ℕ
  pub codes_count : ℕ
  pub frame_register_and_offset : ℕ
  pub unwind_codes : List UnwindCode

unfoldable pub get_version : UnwindInfo → ℕ
get_version u = u.version_and_flags % 8

unfoldable pub get_flags : UnwindInfo → ℕ
get_flags u = u.version_and_flags / 8 % 32

unfoldable pub get_frame_register : UnwindInfo → ℕ
get_frame_register u = u.frame_register_and_offset % 16

unfoldable pub get_frame_offset : UnwindInfo → ℕ
get_frame_offset u = u.frame_register_and_offset / 16 % 16

-- The number of codes that an operation takes. `none`: the fatal log, which ends the process.
slots : UnwindOpCodes → ℕ → Option ℕ
slots push_non_vol info = some 1
slots alloc_small info = some 1
slots set_fp_reg info = some 1
slots push_mach_frame info = some 1
slots save_non_vol info = some 2
slots save_xmm128 info = some 2
slots save_non_vol_far info = some 3
slots save_xmm128_far info = some 3
slots alloc_large info = some (if info == 0 then 2 else 3)
slots epilog info = none
slots spare_code info = none
slots invalid info = none

unfoldable pub get_slots_num : UnwindCode → Option ℕ
unfolding slots
get_slots_num c = slots (get_unwind_op c) (get_op_info c)

-- The variables of the loop of `GetStackOffset`.
pub record Totals : Type 0 where
  pub push_reg_offset : ℕ
  pub alloc_size : ℕ

abbrev pub slot_size : ℕ
slot_size = 8

set_alloc : Totals → Option ℕ → Option Totals
set_alloc t none = none
set_alloc t (some n) = some (record t { alloc_size = n })

-- The operand of a large allocation: one 16-bit code, scaled, or two codes. `none` is a read
-- past the array.
large_size : List UnwindCode → ℕ → ℕ → Option ℕ
large_size codes i info =
    if info == 0
    then elim (get_elem? codes (i + 1)) [ none ↦ none | some c ↦ some (frame_offset c * slot_size) ]
    else elim (get_elem? codes (i + 1)) [
      | none ↦ none
      | some lo ↦ elim (get_elem? codes (i + 2)) [
        | none ↦ none
        | some hi ↦ some (add32 (frame_offset lo) (frame_offset hi * 2 ^ 16 % 2 ^ 32))
      ]
    ]

-- The `switch` in the body of the loop.
tally : UnwindOpCodes → List UnwindCode → ℕ → ℕ → Totals → Option Totals
unfolding set_alloc large_size
tally push_non_vol codes i info t =
    some (record t { push_reg_offset = add32 t.push_reg_offset slot_size })
tally alloc_small codes i info t = set_alloc t (some ((info + 1) * slot_size))
tally alloc_large codes i info t = set_alloc t (large_size codes i info)
tally set_fp_reg codes i info t = some t
tally save_non_vol codes i info t = some t
tally save_non_vol_far codes i info t = some t
tally epilog codes i info t = some t
tally spare_code codes i info t = some t
tally save_xmm128 codes i info t = some t
tally save_xmm128_far codes i info t = some t
tally push_mach_frame codes i info t = some t
tally invalid codes i info t = some t

pub data StackOffset : Type 0 where
  offset : ℕ → StackOffset
  fatal : StackOffset
  out_of_bounds : StackOffset
  out_of_fuel : StackOffset

-- Each round passes at least one code, so `codes_count` rounds and the last test are enough.
unfoldable pub offset_loop : List UnwindCode → ℕ → ℕ → ℕ → Totals → StackOffset
unfolding tally get_slots_num
offset_loop codes count zero i t = out_of_fuel
offset_loop codes count (suc fuel) i t = elim (ltb i count) [
  | false ↦ offset (add32 t.alloc_size t.push_reg_offset)
  | true ↦ elim (get_elem? codes i) [
    | none ↦ out_of_bounds
    | some c ↦ elim (tally (get_unwind_op c) codes i (get_op_info c) t) [
      | none ↦ out_of_bounds
      | some t' ↦ elim (get_slots_num c) [
        | none ↦ fatal
        | some k ↦ offset_loop codes count fuel (i + k) t'
      ]
    ]
  ]
]

unfoldable pub get_stack_offset : UnwindInfo → StackOffset
get_stack_offset u =
    offset_loop u.unwind_codes u.codes_count (suc u.codes_count) 0
      (record { push_reg_offset = 0; alloc_size = 0 })
