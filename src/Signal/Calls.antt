-- ===== src/Signal/Calls.antt =====
-- SignalStack.cpp, lines 282-377: the calls `sigaction`, `signal` and `sigprocmask` that the
-- runtime puts before those of the C library. `-1` with `errno` is `failed`.
pub mod Actions
pub mod Masks
use cjcj_runtime.Base.{
  ℕ, zero, suc, Bool, Option, none, some, ◌==◌, ◌||◌, ◌&&◌, leb, if◌then◌else◌, not, true, false,
}
use cjcj_runtime.Signal.World.{
  Sigset, Action, World, Flags, nsig, empty_set, delete_signal, set_stack, linked_sigaction,
}

-- `EINVAL` is the only error, of the runtime and of the C library.
pub data Outcome {ℓ} (A : Type ℓ) : Type ℓ where
  done : A → Outcome A
  failed : Outcome A

-- `signal <= 0 || signal >= _NSIG`; the negative numbers are those below 0 in the first test.
abbrev pub is_signal : ℕ → Bool
is_signal signal = if signal == 0 then false else not (leb nsig signal)

-- `SetAction`, for the stack of a signal.
unfoldable pub set_action : ℕ → Option Action → World → World
set_action signal none w = w
set_action signal (some a) w = set_stack w signal (record (w.stacks signal) { sig_action = a })

-- What the C library's `sigaction` reports: the old action, or its error.
unfoldable pub linked_result : ℕ → Bool → World → Outcome Action
linked_result signal is_new w = if w.refuses signal is_new then failed else done (w.kernel signal)

abbrev pub is_given : Option Action → Bool
is_given none = false
is_given (some a) = true

-- `SigactionImpl` and `sigaction`. The result is what `*oldAction` receives.
unfoldable pub sigaction : ℕ → Option Action → World → World × Outcome Action
unfolding set_action set_stack linked_sigaction linked_result
sigaction signal new_action w =
    if is_signal signal
    then (if (w.stacks signal).is_mark
        then (set_action signal new_action w, done (w.stacks signal).sig_action)
        else (linked_sigaction signal new_action w, linked_result signal (is_given new_action) w))
    else (w, failed)

-- `SA_RESTART | SA_ONSTACK`.
abbrev pub signal_flags : Flags
signal_flags = record { nodefer = false; siginfo = false; restart = true; onstack = true }

abbrev pub signal_action : ℕ → Action
signal_action handler = record { fn = handler; sa_mask = empty_set; sa_flags = signal_flags }

-- The call `signal`; its result is the old handler, or `SIG_ERR`.
unfoldable pub set_handler : ℕ → ℕ → World → World × Outcome ℕ
unfolding set_action set_stack linked_sigaction linked_result
set_handler signal handler w =
    if is_signal signal
    then (if (w.stacks signal).is_mark
        then (
          set_action signal (some (signal_action handler)) w,
          done (w.stacks signal).sig_action.fn,
        )
        else (
          linked_sigaction signal (some (signal_action handler)) w,
          if w.refuses signal true then failed else done (w.kernel signal).fn,
        ))
    else (w, failed)

-- The loop of `AdjustSignalMask` from signal `i` on, `n` signals long.
unfoldable pub adjust_from : ℕ → ℕ → World → Sigset → Sigset
adjust_from zero i w set = set
adjust_from (suc n) i w set =
    adjust_from n (suc i) w (if (w.stacks i).is_mark && set i then delete_signal set i else set)

-- `for (i = 1; i < _NSIG; ++i)`.
unfoldable pub adjust_signal_mask : World → Sigset → Sigset
unfolding adjust_from
adjust_signal_mask w set = adjust_from 64 1 w set

pub data How : Type 0 where
  block unblock setmask : How

-- The C library's `sigprocmask`. The bits of SIGKILL and SIGSTOP, which have no effect, are those
-- asked for.
unfoldable pub linked_sigprocmask : How → Option Sigset → World → World
linked_sigprocmask how none w = w
linked_sigprocmask block (some set) w = record w { mask = λ s. w.mask s || set s }
linked_sigprocmask unblock (some set) w = record w { mask = λ s. w.mask s && not (set s) }
linked_sigprocmask setmask (some set) w = record w { mask = set }

abbrev pub adjusts : How → Bool
adjusts block = true
adjusts unblock = false
adjusts setmask = true

-- `SigProcMask`. The results are the world, what `*oldSet` receives, and what `*newSet` holds
-- afterwards: the code writes the adjusted set through the caller's pointer to const.
unfoldable pub sigprocmask : How → Option Sigset → World → World × Sigset × Option Sigset
sigprocmask how none w = (w, w.mask, none)
sigprocmask how (some set) w =
    let tmpset = if adjusts how then adjust_signal_mask w set else set in
    if w.handling
    then (linked_sigprocmask how (some set) w, w.mask, some set)
    else (linked_sigprocmask how (some tmpset) w, w.mask, some tmpset)
