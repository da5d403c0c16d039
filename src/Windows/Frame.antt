-- ===== src/Windows/Frame.antt =====
-- rt0/os/Windows/UnwindWin.cpp, lines 76-240: the machine frame of a program counter and of the
-- caller of a frame. A `FrameAddress` is two words of the stack, the frame address of the caller
-- and the return address (src/rt.common/StackType.cj).
pub mod Caller
use cjcj_runtime.Base.{
  ℕ, Bool, Option, none, some, ◌==◌, ◌||◌, ◌&&◌, not, if◌then◌else◌, true, false, add64, sub64,
}
use cjcj_runtime.Windows.Module.{
  WinModule, RuntimeFunction, Found, found, missing, out_of_bounds, out_of_fuel,
  get_runtime_function,
}
use cjcj_runtime.Windows.Unwind.{UnwindInfo, StackOffset, offset, get_stack_offset}
use cjcj_runtime.Windows.Unwind
use cjcj_runtime.Windows.Manager.{WinModuleManager, get_win_module_by_pc}

-- `UNKNOWN`, `RELIABLE`, `RISKY` and `SIGNAL_STATUS` of `UnwindContextStatus`.
pub data Status : Type 0 where
  unknown reliable risky signal_status : Status

pub record MachineFrame : Type 0 where
  pub ip : ℕ
  pub fa : ℕ

pub record FrameInfo : Type 0 where
  pub start_proc : ℕ
  pub frame : MachineFrame

-- What the unwinder takes from the rest of the runtime and from memory: the addresses of the
-- assembly stubs, words of the stack, the kind of a frame, the offset in the stack map of a
-- function, the unwind information at an address, the mutator's `GetStackGrowFrameSize` (`none`
-- if the thread has no mutator), and the set of modules after `ReadWinModuleAtRunning`.
pub record Runtime : Type 0 where
  pub c2n_stub : ℕ
  pub n2c_stub : ℕ
  pub throw_stack_overflow_error : ℕ
  pub execute_cangjie_stub : ℕ
  pub apply_cangjie_method_stub : ℕ
  pub unwind_pc_for_n2c_stub : ℕ
  pub unwind_pc_for_c2n_stub : ℕ
  pub unwind_pc_for_tpe : ℕ
  pub unwind_pc_for_stack_grow_stub : ℕ
  pub load : ℕ → ℕ
  pub is_runtime_frame : FrameInfo → Bool
  pub stack_map_offset : ℕ → ℕ
  pub unwind_info_at : ℕ → UnwindInfo
  pub stack_grow_frame_size : Option ℕ
  pub read_win_module_at_running : WinModuleManager → Option WinModuleManager

abbrev pub caller_frame_address : Runtime → ℕ → ℕ
caller_frame_address r fa = r.load fa

abbrev pub return_address : Runtime → ℕ → ℕ
return_address r fa = r.load (add64 fa 8)

-- `none` is the end of the process, by a failed `CHECK` or a fatal log, or a read that has no
-- defined value.
infixl 5 ◌>>=◌
abbrev pub ◌>>=◌ {ℓ κ} : {A : Type ℓ} {B : Type κ} → Option A → (A → Option B) → Option B
none >>= f = none
some a >>= f = f a

-- The module of `pc`, looked up again after a refresh if it is not known.
unfoldable pub find_module : Runtime → WinModuleManager → ℕ → Option (WinModule × WinModuleManager)
find_module r g pc = elim (get_win_module_by_pc g pc) [
  | some m ↦ some (m, g)
  | none ↦ elim (r.read_win_module_at_running g) [
    | none ↦ none
    | some h ↦ elim (get_win_module_by_pc h pc) [ none ↦ none | some m ↦ some (m, h) ]
  ]
]

abbrev pub to_entry : Found → Option RuntimeFunction
to_entry (found i f) = some f
to_entry missing = none
to_entry out_of_bounds = none
to_entry out_of_fuel = none

abbrev pub to_bytes : StackOffset → Option ℕ
to_bytes (offset n) = some n
to_bytes Unwind.fatal = none
to_bytes Unwind.out_of_bounds = none
to_bytes Unwind.out_of_fuel = none

-- The start of the function that holds `pc`, and the address of its unwind information.
pub record Proc : Type 0 where
  pub start_proc : ℕ
  pub unwind_info : ℕ
  pub manager : WinModuleManager

unfoldable pub find_proc : Runtime → WinModuleManager → ℕ → Option Proc
unfolding find_module
find_proc r g pc = do
  (m, h) ← find_module r g pc
  f ← to_entry (get_runtime_function m pc)
  some (record {
    start_proc = add64 m.image_base_start f.start_address;
    unwind_info = add64 m.image_base_start f.unwind_info_offset;
    manager = h;
  })

abbrev pub frame_of : ℕ → ℕ → ℕ → FrameInfo
frame_of start ip fa = record { start_proc = start; frame = record { ip = ip; fa = fa } }

unfoldable pub get_cur_frame_info :
    Runtime → WinModuleManager → ℕ → ℕ → Option (FrameInfo × WinModuleManager)
get_cur_frame_info r g pc sp = do
  p ← find_proc r g pc
  stack_offset ← to_bytes (get_stack_offset (r.unwind_info_at p.unwind_info))
  some (
    if r.is_runtime_frame (frame_of p.start_proc pc 0)
        then frame_of p.start_proc pc (sub64 (add64 sp stack_offset) 8)
        else frame_of p.start_proc pc
            (add64 (r.load (sub64 sp 0x10)) (r.stack_map_offset p.start_proc)),
    p.manager,
  )

unfoldable pub is_stub : Runtime → ℕ → Bool
is_stub r start =
    start == r.c2n_stub
    || (start == r.n2c_stub
        || (start == r.execute_cangjie_stub || start == r.apply_cangjie_method_stub))

-- The return from a stub that stands above two more words, the callee's address and the size of
-- the parameters.
unfoldable pub in_stub_call : Runtime → ℕ → Bool
in_stub_call r ip =
    ip == r.unwind_pc_for_n2c_stub || (ip == r.unwind_pc_for_c2n_stub || ip == r.unwind_pc_for_tpe)

unfoldable pub sp_offset : Runtime → ℕ → ℕ
sp_offset r ip = if in_stub_call r ip then 32 else 16

-- `status`, and the function's `static bool isCalleeThrowStackOverFlowError`.
pub record Unwinding : Type 0 where
  pub status : Status
  pub is_callee_overflow : Bool

-- The status after a frame of a stub.
unfoldable pub stub_status : Runtime → ℕ → Status → Status
stub_status r start s =
    let s' = if start == r.c2n_stub then reliable else s in
    if start == r.n2c_stub then risky else s'

abbrev pub is_risky : Status → Bool
is_risky risky = true
is_risky _ = false

-- The frame address of the caller and the unwinder's variables after the chain of tests.
unfoldable pub caller_fa : Runtime → Proc → MachineFrame → ℕ → Unwinding → Option (ℕ × Unwinding)
caller_fa r p cur caller_pc u =
    if is_stub r p.start_proc
    then some
        (caller_frame_address r cur.fa, record u { status = stub_status r p.start_proc u.status })
    else if u.is_callee_overflow
    then some (add64 cur.fa 16, record u { is_callee_overflow = false })
    else if cur.ip == r.unwind_pc_for_stack_grow_stub
    then (r.stack_grow_frame_size >>= λ n. some (add64 cur.fa n, u))
    else if not (is_risky u.status) && not (r.is_runtime_frame (frame_of p.start_proc caller_pc 0))
    then some (add64 (caller_frame_address r cur.fa) (r.stack_map_offset p.start_proc), u)
    else (to_bytes (get_stack_offset (r.unwind_info_at p.unwind_info)) >>= λ n.
        some (sub64 (add64 (add64 cur.fa (sp_offset r cur.ip)) n) 8, u))

-- The flag is set for the next call after the frame of the function that throws the error.
unfoldable pub mark_overflow : Runtime → ℕ → Bool → Bool
mark_overflow r start flag = if start == r.throw_stack_overflow_error then true else flag

unfoldable pub get_caller_frame_info :
    Runtime
    → WinModuleManager
    → MachineFrame
    → Unwinding
    → Option (FrameInfo × WinModuleManager × Unwinding)
get_caller_frame_info r g cur u = do
  let caller_pc = return_address r cur.fa
  p ← find_proc r g caller_pc
  (fa, u') ← caller_fa r p cur caller_pc u
  some (
    frame_of p.start_proc caller_pc fa,
    p.manager,
    record u' { is_callee_overflow = mark_overflow r p.start_proc u'.is_callee_overflow },
  )

-- `GetCallerRsp`, with its own static flag.
unfoldable pub get_caller_rsp :
    Runtime → WinModuleManager → MachineFrame → Bool → Option (ℕ × WinModuleManager × Bool)
get_caller_rsp r g cur flag = do
  p ← find_proc r g (return_address r cur.fa)
  let by_stub = is_stub r p.start_proc || cur.ip == r.unwind_pc_for_stack_grow_stub
  let rsp = if by_stub || flag then add64 cur.fa 16 else add64 cur.fa (sp_offset r cur.ip)
  some (rsp, p.manager, mark_overflow r p.start_proc (by_stub && flag))
