-- ===== src/Windows/Frame/Caller.antt =====
-- What the unwinder computes for the caller of a frame.
use cjcj_runtime.Base.{
  ℕ, ◌+◌, ◌-◌, ◌^◌, ◌<◌, ◌≤◌, List, Bool, some, ◌≡◌, ◌≢◌, ◌⊎◌, true, false, arith, ◌==◌, ◌||◌, ◌&&◌,
  if◌then◌else◌,
}
use cjcj_runtime.Windows.Unwind.{get_stack_offset, offset}
use cjcj_runtime.Windows.Unwind.Prologue.{Op, frame_size, allocations, machine_frames}
use cjcj_runtime.Windows.Unwind.Offset.{Describes, AllEncodable, get_stack_offset-frame_size}
use cjcj_runtime.Windows.Manager.{WinModuleManager}
use cjcj_runtime.Windows.Frame.{
  Runtime, MachineFrame, FrameInfo, Unwinding, Proc, find_proc, return_address, is_stub, is_risky,
  frame_of, caller_fa, mark_overflow, stub_status, get_caller_frame_info, get_caller_rsp, sp_offset,
  in_stub_call,
}

sp_offset_bounds : (r : Runtime) (ip : ℕ) → (16 ≤ sp_offset r ip) × (sp_offset r ip ≤ 32)
unfolding sp_offset
sp_offset_bounds r ip = ground arith

module _ (r : Runtime) (g : WinModuleManager) (cur : MachineFrame) (u : Unwinding) (p : Proc)
    (known : find_proc r g (return_address r cur.fa) ≡ some p) where
  -- The caller whose frame is read off its prologue: no stub, no overflow error, no grown stack,
  -- and either a runtime function or an unwinding that must not trust the stack maps.
  pub record ByPrologue : Type 0 where
    pub no_stub : is_stub r p.start_proc ≡ false
    pub no_overflow : u.is_callee_overflow ≡ false
    pub no_growth : (cur.ip == r.unwind_pc_for_stack_grow_stub) ≡ false
    pub kind :
        (is_risky u.status ≡ true)
        ⊎ (r.is_runtime_frame (frame_of p.start_proc (return_address r cur.fa) 0) ≡ true)

  caller_fa-prologue :
      (n : ℕ)
      → ByPrologue
      → get_stack_offset (r.unwind_info_at p.unwind_info) ≡ offset n
      → n < 2 ^ 32
      → cur.fa + n + 32 < 2 ^ 64
      → caller_fa r p cur (return_address r cur.fa) u
        ≡ some (cur.fa + sp_offset r cur.ip + n - 8, u)
  unfolding caller_fa
  caller_fa-prologue n b e small fits = ground (arith, sp_offset_bounds r cur.ip)

  -- The stack pointer with which such a caller was entered, when its prologue has moved it down by
  -- `size` bytes before it called the frame `cur`. Above the frame address of `cur` stand the saved
  -- frame pointer and the return address, each of eight bytes. If `cur` returns from one of the three
  -- stubs, two more words stand above them, the address of the callee and the size of the parameters.
  pub data EnteredAt (size entry_sp : ℕ) : Type 0 where
    direct :
        cur.ip ≢ r.unwind_pc_for_n2c_stub
        → cur.ip ≢ r.unwind_pc_for_c2n_stub
        → cur.ip ≢ r.unwind_pc_for_tpe
        → entry_sp ≡ cur.fa + (8 + 8) + size
        → EnteredAt size entry_sp
    through_stub :
        (cur.ip ≡ r.unwind_pc_for_n2c_stub)
          ⊎ ((cur.ip ≡ r.unwind_pc_for_c2n_stub) ⊎ (cur.ip ≡ r.unwind_pc_for_tpe))
        → entry_sp ≡ cur.fa + (8 + 8 + 8 + 8) + size
        → EnteredAt size entry_sp

  entry-sp_offset :
      (size entry_sp : ℕ) → EnteredAt size entry_sp → entry_sp ≡ cur.fa + sp_offset r cur.ip + size
  unfolding sp_offset in_stub_call
  entry-sp_offset size entry_sp (direct a b c e) = ground (arith, a, b, c, e)
  entry-sp_offset size entry_sp (through_stub s e) = ground (arith, s, e)

  -- For a caller whose function is found and that is unwound by its prologue (`ByPrologue`: it is no
  -- stub, the callee is not the function that throws the stack overflow error, the stack has not
  -- grown, and the status is RISKY or the caller is a function of the runtime), whose codes, with
  -- operands that fit the format, hold at most one allocation and no machine frame and whose frame
  -- is smaller than 2 ^ 32 bytes, the frame address found is eight bytes below the stack pointer that
  -- it was entered with, if that lies below 2 ^ 64 - 32: there its prologue saved the frame pointer.
  -- The flag is set if the caller is the function that throws the stack overflow error.
  pub get_caller_frame_info-entry :
      (os : List (ℕ × Op)) (entry_sp : ℕ)
      → ByPrologue
      → Describes (r.unwind_info_at p.unwind_info) os
      → AllEncodable os
      → allocations os ≤ 1
      → machine_frames os ≡ 0
      → frame_size os < 2 ^ 32
      → entry_sp < 2 ^ 64 - 32
      → EnteredAt (frame_size os) entry_sp
      → get_caller_frame_info r g cur u
        ≡ some (
          frame_of p.start_proc (return_address r cur.fa) (entry_sp - 8),
          p.manager,
          record u { is_callee_overflow = mark_overflow r p.start_proc u.is_callee_overflow },
        )
  unfolding get_caller_frame_info
  get_caller_frame_info-entry os entry_sp b d h one no_trap small fits at = ground (
    arith,
    known,
    entry-sp_offset (frame_size os) entry_sp at,
    caller_fa-prologue (frame_size os) b (get_stack_offset-frame_size _ os d h one no_trap small)
        small,
  )

  -- The two static flags, started from the same value, stay the same except after a grown stack.
  pub flags_agree :
      (f : FrameInfo) (h k : WinModuleManager) (v : Unwinding) (rsp : ℕ) (flag : Bool)
      → (cur.ip == r.unwind_pc_for_stack_grow_stub) ≡ false
      → get_caller_frame_info r g cur u ≡ some (f, h, v)
      → get_caller_rsp r g cur u.is_callee_overflow ≡ some (rsp, k, flag)
      → v.is_callee_overflow ≡ flag
  unfolding get_caller_frame_info get_caller_rsp caller_fa mark_overflow
  flags_agree f h k v rsp flag no_growth a b = ground (arith, known)

  -- How the unwinder's variables change: the status is that of a stub if the caller is one, and
  -- the flag is set after the function that throws the stack overflow error, and kept otherwise
  -- only over a stub.
  pub get_caller_frame_info-variables :
      (f : FrameInfo) (h : WinModuleManager) (v : Unwinding)
      → get_caller_frame_info r g cur u ≡ some (f, h, v)
      → (v.status
          ≡ (if is_stub r p.start_proc then stub_status r p.start_proc u.status else u.status))
        × (v.is_callee_overflow ≡ (
            (p.start_proc == r.throw_stack_overflow_error)
            || (is_stub r p.start_proc && u.is_callee_overflow)))
  unfolding get_caller_frame_info caller_fa mark_overflow
  get_caller_frame_info-variables f h v a = ground (arith, known)
