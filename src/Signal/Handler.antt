-- ===== src/Signal/Handler.antt =====
-- SignalStack.cpp, lines 93-221: what happens when a signal arrives. The functions that handlers
-- point to, `raise` and the scheduler's `RunCJTaskSignal` are parameters: they may change the
-- world in any way. The loop walks the handlers that the stack has when it starts.
pub mod Chain
use mathlib.Core.List.{reverse}
use cjcj_runtime.Base.{ℕ, Bool, List, [], ◌∷◌, some, ◌==◌, ◌||◌, if◌then◌else◌, true, false}
use cjcj_runtime.Signal.World.{
  Sigset, Action, SignalAction, World, empty_set, no_flags, sig_dfl, sig_ign, add_signal,
  sig_or_set, linked_sigaction,
}

-- The calls through function pointers and into the C library and the scheduler. Each takes the
-- address of the function, if any, and the signal.
pub record Callbacks : Type 0 where
  pub action : ℕ → ℕ → World → World × Bool
  pub sigaction_fn : ℕ → ℕ → World → World
  pub handler_fn : ℕ → ℕ → World → World
  pub raise : ℕ → World → World
  pub accepts_task : World → Bool

module _ (cb : Callbacks) (signal : ℕ) where
  -- The handlers, latest first. The flag says whether one of them has taken the signal.
  unfoldable pub run_chain : Bool → List SignalAction → World → World × Bool
  run_chain is_async [] w = (w, false)
  run_chain is_async (h ∷ hs) w =
      let entered = record w {
        mask = h.sc_mask;
        handling = if is_async then w.handling else true;
      } in
      let (after, taken) = cb.action h.sa_signal_action signal entered in
      let rest = run_chain is_async hs (record after { mask = w.mask; handling = w.handling }) in
      if h.sa_signal_action == 0
      then (w, false)
      else if taken
      then (record after { handling = w.handling }, true)
      else rest

  -- The mask for the application's action.
  unfoldable pub forward_mask : Sigset → Action → Sigset
  forward_mask uc_sigmask a =
      let both = sig_or_set empty_set (some uc_sigmask) (some a.sa_mask) in
      if a.sa_flags.nodefer then both else add_signal both signal

  -- The part of `HandlerImpl` behind the chain: the action that the application has set.
  unfoldable pub forward : Sigset → World → World
  unfolding linked_sigaction
  forward uc_sigmask w =
      let a = (w.stacks signal).sig_action in
      let masked = record w { mask = forward_mask uc_sigmask a } in
      if a.sa_flags.siginfo
      then cb.sigaction_fn a.fn signal masked
      else if a.fn == sig_ign
      then w
      else if a.fn == sig_dfl
      then cb.raise signal (
          linked_sigaction signal
            (some (record { fn = sig_dfl; sa_mask = empty_set; sa_flags = no_flags })) w)
      else cb.handler_fn a.fn signal masked

  unfoldable pub handler_impl : Bool → Sigset → World → World
  unfolding run_chain forward
  handler_impl is_async uc_sigmask w =
      let (w', taken) = run_chain is_async (reverse (w.stacks signal).handler_stack) w in
      if w.handling then forward uc_sigmask w else if taken then w' else forward uc_sigmask w'

-- SIGILL, SIGABRT, SIGBUS, SIGFPE and SIGSEGV of Linux.
abbrev pub sigill : ℕ
sigill = 4

abbrev pub sigabrt : ℕ
sigabrt = 6

abbrev pub sigbus : ℕ
sigbus = 7

abbrev pub sigfpe : ℕ
sigfpe = 8

abbrev pub sigsegv : ℕ
sigsegv = 11

-- `RunCJTaskSignal`: the arguments are dropped if the scheduler refuses the task.
unfoldable pub run_task : Callbacks → ℕ → Sigset → World → World
run_task cb signal uc_sigmask w =
    if cb.accepts_task w
    then record w { tasks = record { signal = signal; uc_sigmask = uc_sigmask } ∷ w.tasks }
    else w

abbrev pub is_fault : ℕ → Bool
is_fault signal = signal == sigsegv || (signal == sigbus || signal == sigfpe)

abbrev pub is_abort : ℕ → Bool
is_abort signal = signal == sigabrt || signal == sigill

-- `SignalStack::Handler`, which the kernel calls.
unfoldable pub handler : Callbacks → ℕ → Sigset → World → World
unfolding run_task
handler cb signal uc_sigmask w =
    if is_fault signal
    then handler_impl cb signal false uc_sigmask w
    else if is_abort signal
    then (if (w.stacks signal).is_user_sig_handler
        then run_task cb signal uc_sigmask w
        else handler_impl cb signal false uc_sigmask w)
    else run_task cb signal uc_sigmask w
