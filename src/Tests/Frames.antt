-- ===== src/Tests/Frames.antt =====
-- Runs of the unwinder and of the set of modules: one module, one function that starts at 80, and
-- a stack that returns into it.
use mathlib.Core.List.Memᴰ.{head, tail}
use cjcj_runtime.Base.{
  ℕ, zero, suc, List, [], ◌∷◌, none, some, ◌≡◌, refl, true, false, arith, length, Memᴰ, inr, ◌==◌,
  if◌then◌else◌, ◌||◌, ◌&&◌,
}
use cjcj_runtime.Windows.Module.{WinModule, get_runtime_function, is_in_module, search_loop, probe}
use cjcj_runtime.Windows.Unwind.{
  UnwindInfo, get_stack_offset, offset_loop, get_unwind_op, get_op_info,
}
use cjcj_runtime.Windows.Unwind.Prologue.{Op, push, alloc_small, encode, frame_size}
use cjcj_runtime.Windows.Unwind.Offset.{AllEncodable}
use cjcj_runtime.Windows.Manager.{
  WinModuleManager, Image, get_win_module_by_pc, read_win_module_at_init,
  read_win_module_at_running,
}
use cjcj_runtime.Windows.Manager.Lookup.{AreDisjoint}
use cjcj_runtime.Windows.Manager.Refresh.{
  DistinctNames, IsRegistered, read_win_module_at_init-DistinctNames,
}
use cjcj_runtime.Windows.Frame.{
  Runtime, MachineFrame, Unwinding, Proc, reliable, find_proc, return_address, is_stub, frame_of,
  get_caller_frame_info, get_caller_rsp, stub_status, caller_fa, mark_overflow, sp_offset,
  in_stub_call,
}
use cjcj_runtime.Windows.Frame.Caller.{
  ByPrologue, EnteredAt, direct, get_caller_frame_info-entry, get_caller_frame_info-variables,
}

abbrev app : WinModule
app = record {
  image_base_start = 4096;
  image_base_end = 8192;
  func_table = record { start_address = 80; end_address = 200; unwind_info_offset = 1000 } ∷ [];
  func_table_count = 1;
  module_name = "C:\\app.exe";
}

abbrev manager : WinModuleManager
manager = record { win_modules = app ∷ [] }

abbrev prologue : List (ℕ × Op)
prologue = (10, alloc_small 4) ∷ (6, push 5) ∷ (1, push 3) ∷ []

abbrev prologue_info : UnwindInfo
prologue_info = record {
  version_and_flags = 1;
  prolog_size = 16;
  codes_count = length (encode prologue);
  frame_register_and_offset = 0;
  unwind_codes = encode prologue;
}

-- The return address in the frame at 65536 is 4196, in the function.
abbrev runtime : Runtime
runtime = record {
  c2n_stub = 1;
  n2c_stub = 2;
  throw_stack_overflow_error = 3;
  execute_cangjie_stub = 4;
  apply_cangjie_method_stub = 5;
  unwind_pc_for_n2c_stub = 6;
  unwind_pc_for_c2n_stub = 7;
  unwind_pc_for_tpe = 8;
  unwind_pc_for_stack_grow_stub = 9;
  load = λ a. if a == 65544 then 4196 else 0;
  is_runtime_frame = λ f. true;
  stack_map_offset = λ a. 0;
  unwind_info_at = λ a. prologue_info;
  stack_grow_frame_size = some 32;
  read_win_module_at_running = λ g. some g;
}

abbrev frame : MachineFrame
frame = record { ip = 4180; fa = 65536 }

abbrev unwinding : Unwinding
unwinding = record { status = reliable; is_callee_overflow = false }

abbrev proc : Proc
proc = record { start_proc = 4176; unwind_info = 5096; manager = manager }

known : find_proc runtime manager (return_address runtime frame.fa) ≡ some proc
unfolding find_proc get_runtime_function get_win_module_by_pc is_in_module search_loop probe
known = refl

unwound :
    get_caller_frame_info runtime manager frame unwinding
    ≡ some (frame_of 4176 4196 65600, manager, unwinding)
unfolding get_caller_frame_info caller_fa is_stub mark_overflow find_proc get_runtime_function
    get_win_module_by_pc is_in_module search_loop probe get_stack_offset offset_loop encode
    get_unwind_op get_op_info sp_offset in_stub_call
unwound = refl

caller_rsp : get_caller_rsp runtime manager frame false ≡ some (65552, manager, false)
unfolding get_caller_rsp is_stub mark_overflow find_proc get_runtime_function get_win_module_by_pc
    is_in_module search_loop probe sp_offset in_stub_call
caller_rsp = refl

by_prologue : ByPrologue runtime manager frame unwinding proc known
unfolding is_stub
by_prologue = record { no_stub = refl; no_overflow = refl; no_growth = refl; kind = inr refl }

encodable : AllEncodable prologue
encodable = (omega arith, (omega arith, (omega arith, tt)))

entered : EnteredAt runtime manager frame unwinding proc known (frame_size prologue) 65608
entered = direct (omega arith) (omega arith) (omega arith) refl

get_caller_frame_info-entry_example :
    get_caller_frame_info runtime manager frame unwinding
    ≡ some (
      frame_of 4176 4196 65600,
      manager,
      record unwinding { is_callee_overflow = mark_overflow runtime 4176 false },
    )
get_caller_frame_info-entry_example =
    get_caller_frame_info-entry runtime manager frame unwinding proc known prologue 65608
      by_prologue (refl, refl) encodable (omega arith) refl (omega arith) (omega arith) entered

get_caller_frame_info-variables_example :
    (reliable ≡ (if is_stub runtime 4176 then stub_status runtime 4176 reliable else reliable))
    × (false ≡ (false || (is_stub runtime 4176 && false)))
get_caller_frame_info-variables_example =
    get_caller_frame_info-variables runtime manager frame unwinding proc known
      (frame_of 4176 4196 65600) manager unwinding unwound

app-AreDisjoint : AreDisjoint (app ∷ [])
app-AreDisjoint m n pc (head e) (head f) a b = cc
app-AreDisjoint m n pc (head e) (tail j) a b = elim j [ ]
app-AreDisjoint m n pc (tail i) j a b = elim i [ ]

-- The executable, loaded again at another address, and a library of the system.
abbrev moved : Image
moved = record {
  base_name = "app.exe";
  full_name = "C:\\app.exe";
  dll_base = 16384;
  size_of_image = 4096;
  func_table = [];
  func_table_size = 12;
}

abbrev system_library : Image
system_library = record moved { base_name = "ntdll.dll"; full_name = "C:\\ntdll.dll" }

manager-DistinctNames : DistinctNames manager
manager-DistinctNames m n (head e) (head f) a = cc
manager-DistinctNames m n (head e) (tail j) a = elim j [ ]
manager-DistinctNames m n (tail i) j a = elim i [ ]

read_win_module_at_init-DistinctNames_example :
    DistinctNames (read_win_module_at_init (some moved ∷ none ∷ some system_library ∷ []) manager)
read_win_module_at_init-DistinctNames_example =
    read_win_module_at_init-DistinctNames (some moved ∷ none ∷ some system_library ∷ []) manager
      manager-DistinctNames

moved-IsRegistered : (i : Image) → Memᴰ i (moved ∷ []) → IsRegistered manager i.full_name
moved-IsRegistered i (head e) = (app, head refl, cc)
moved-IsRegistered i (tail m) = elim m [ ]

abbrev copies : ℕ → List Image
copies zero = []
copies (suc n) = moved ∷ copies n
