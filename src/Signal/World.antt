-- ===== src/Signal/World.antt =====
-- The state that rt0/signal/SignalStack.h and SignalStack.cpp work on, for Linux: the array
-- `SignalStack::stacks`, the signal mask of the thread, the thread's "handling a signal" key, the
-- actions that the kernel holds, and the tasks handed to the scheduler. Function pointers are
-- their addresses.
use cjcj_runtime.Base.{
  ℕ, Bool, List, Option, none, some, ◌==◌, ◌||◌, leb, if◌then◌else◌, true, false,
}

-- A `sigset_t` as the set of its signals.
abbrev pub Sigset : Type 0
Sigset = ℕ → Bool

-- `_NSIG`; the words that `SigOrSet` goes over hold the signals up to 64.
abbrev pub nsig : ℕ
nsig = 65

abbrev pub sigset_bits : ℕ
sigset_bits = 64

abbrev pub empty_set : Sigset
empty_set s = false

abbrev pub full_set : Sigset
full_set s = true

abbrev pub add_signal : Sigset → ℕ → Sigset
add_signal set signal s = if s == signal then true else set s

abbrev pub delete_signal : Sigset → ℕ → Sigset
delete_signal set signal s = if s == signal then false else set s

-- `SigOrSet`; `none` is a null pointer. Each word of the destination becomes the union.
unfoldable pub sig_or_set : Sigset → Option Sigset → Option Sigset → Sigset
sig_or_set dest none right = dest
sig_or_set dest (some left) none = dest
sig_or_set dest (some left) (some right) =
    λ s. if leb s sigset_bits then left s || right s else dest s

-- The bits of `sa_flags` that the code sets or tests.
pub record Flags : Type 0 where
  pub nodefer : Bool
  pub siginfo : Bool
  pub restart : Bool
  pub onstack : Bool

-- `struct sigaction`; `fn` is the union of `sa_handler` and `sa_sigaction`.
pub record Action : Type 0 where
  pub fn : ℕ
  pub sa_mask : Sigset
  pub sa_flags : Flags

abbrev pub sig_dfl : ℕ
sig_dfl = 0

abbrev pub sig_ign : ℕ
sig_ign = 1

abbrev pub no_flags : Flags
no_flags = record { nodefer = false; siginfo = false; restart = false; onstack = false }

-- A handler of the runtime's chain; the address 0 is `nullptr`.
pub record SignalAction : Type 0 where
  pub sa_signal_action : ℕ
  pub sc_mask : Sigset

-- `handler_stack` has the latest handler last, as the vector has.
pub record SignalStack : Type 0 where
  pub is_mark : Bool
  pub is_user_sig_handler : Bool
  pub handler_stack : List SignalAction
  pub sig_action : Action

-- A task that will run `HandlerImpl` for a signal, with the mask of the interrupted context.
pub record Task : Type 0 where
  pub signal : ℕ
  pub uc_sigmask : Sigset

-- `refuses` says for which signals the C library's `sigaction` fails, as it does with SIGKILL: with
-- a new action (`true`), or when it is only asked (`false`).
pub record World : Type 0 where
  pub stacks : ℕ → SignalStack
  pub mask : Sigset
  pub handling : Bool
  pub kernel : ℕ → Action
  pub refuses : ℕ → Bool → Bool
  pub tasks : List Task
  pub trace : List ℕ

unfoldable pub set_stack : World → ℕ → SignalStack → World
set_stack w signal t = record w { stacks = λ s. if s == signal then t else w.stacks s }

-- The C library's `sigaction` behind `g_linkedSignalAction`: a new action that is not refused is
-- installed.
unfoldable pub linked_sigaction : ℕ → Option Action → World → World
linked_sigaction signal none w = w
linked_sigaction signal (some a) w =
    if w.refuses signal true
    then w
    else record w { kernel = λ s. if s == signal then a else w.kernel s }
