-- ===== src/Tests/Signal.antt =====
-- Runs of rt0/signal/SignalStack.cpp in a world where the runtime has marked signal 11.
use cjcj_runtime.Base.{
  ℕ, Bool, [], ◌∷◌, none, some, ◌≡◌, refl, true, false, arith, ◌&&◌, ◌==◌, if◌then◌else◌,
}
use cjcj_runtime.Signal.World.{
  Action, SignalAction, SignalStack, World, empty_set, full_set, no_flags,
}
use cjcj_runtime.Signal.Stack.{new_stack, handler_action, mark_sig}
use cjcj_runtime.Signal.Handler.{Callbacks, run_chain}
use cjcj_runtime.Signal.Calls.{
  done, failed, sigaction, set_handler, adjust_signal_mask, setmask, sigprocmask,
}
use cjcj_runtime.Signal.Calls.Actions.{
  reported, sigaction-reported, invalid_signal, mark_sig-reported, sigactions, sets_handler, marks,
  run, IsInstalled, run-IsInstalled,
}
use cjcj_runtime.Signal.Calls.Masks.{adjust_signal_mask_lem, sigprocmask-mask}

abbrev handler_address : ℕ
handler_address = 4096

abbrev segv : SignalAction
segv = record { sa_signal_action = 100; sc_mask = empty_set }

abbrev trap : SignalAction
trap = record { sa_signal_action = 200; sc_mask = full_set }

abbrev marked_stack : SignalStack
marked_stack = record new_stack { is_mark = true; handler_stack = segv ∷ trap ∷ [] }

abbrev default_action : Action
default_action = record { fn = 0; sa_mask = empty_set; sa_flags = no_flags }

abbrev world : World
world = record {
  stacks = λ s. if s == 11 then marked_stack else new_stack;
  mask = empty_set;
  handling = false;
  refuses = λ s is_new. (s == 9 && is_new);
  kernel = λ s. if s == 11 then handler_action handler_address else default_action;
  tasks = [];
  trace = [];
}

-- Handler 100 takes every signal, and each notes its call.
abbrev takes : ℕ → Bool
takes f = f == 100

abbrev callbacks : Callbacks
callbacks = record {
  action = λ f s w. (record w { trace = f ∷ w.trace }, takes f);
  sigaction_fn = λ f s w. w;
  handler_fn = λ f s w. w;
  raise = λ s w. w;
  accepts_task = λ w. true;
}

abbrev action : Action
action = record { fn = 300; sa_mask = empty_set; sa_flags = no_flags }

chain-taken : (run_chain callbacks 11 false (trap ∷ segv ∷ []) world).1 ≡ true
unfolding run_chain
chain-taken = refl

sigaction-reported_example : reported 11 (sigaction 11 (some action) world).0 ≡ done action
sigaction-reported_example = sigaction-reported 11 11 action world (refl, refl, refl)

invalid_signal_example :
    (sigaction 65 (some action) world ≡ (world, failed))
    × (set_handler 65 300 world ≡ (world, failed))
invalid_signal_example = invalid_signal 65 300 (some action) world refl

mark_sig-reported_example : reported 7 (mark_sig handler_address 7 world) ≡ reported 7 world
mark_sig-reported_example = mark_sig-reported handler_address 7 7 world (refl, refl, refl)

world-IsInstalled : IsInstalled handler_address world
world-IsInstalled s m c = ground arith

run-IsInstalled_example : IsInstalled handler_address (
    run handler_address world
      (marks 7 ∷ sigactions 7 (some action) ∷ sets_handler 11 300 ∷ sigactions 11 none ∷ []))
run-IsInstalled_example =
    run-IsInstalled handler_address world
      (marks 7 ∷ sigactions 7 (some action) ∷ sets_handler 11 300 ∷ sigactions 11 none ∷ [])
      world-IsInstalled

adjust_signal_mask_lem_example : adjust_signal_mask world full_set 11 ≡ false
adjust_signal_mask_lem_example = adjust_signal_mask_lem world full_set 11

sigprocmask-mask_example : (sigprocmask setmask (some full_set) world).0.mask 11 ≡ false
sigprocmask-mask_example = sigprocmask-mask setmask full_set world 11 refl
