-- ===== src/Signal/Handler/Chain.antt =====
-- The chain of handlers, and how a signal is dispatched to it.
use mathlib.Core.List.Memᴰ.{head, tail}
use cjcj_runtime.Base.{
  ℕ, Bool, List, [], ◌∷◌, ◌≡◌, ◌≢◌, some, ◌⊎◌, refl, ◌==◌, if◌then◌else◌, true, false, arith,
  Bool-cases, inl, inr, Memᴰ,
}
use cjcj_runtime.Signal.World.{
  Sigset, Action, SignalAction, World, empty_set, no_flags, sig_dfl, sig_ign, add_signal,
  sig_or_set, linked_sigaction,
}
use cjcj_runtime.Signal.Handler.{Callbacks, run_chain}

-- What is done in the world `v` when no handler takes the signal, for the action that the application
-- has set, by its `SA_SIGINFO` flag and its function: `SIG_IGN` does nothing, `SIG_DFL` raises the
-- signal again after the system's action is the default one, and a function of the application is
-- called under the mask of the interrupted thread and of the action, and the signal itself, unless
-- `SA_NODEFER` is set.
abbrev pub IsForwarded : Callbacks → ℕ → Sigset → World → World → Type 0
IsForwarded cb signal uc_sigmask v result =
    let a = (v.stacks signal).sig_action in
    let both = sig_or_set empty_set (some uc_sigmask) (some a.sa_mask) in
    let masked = record v { mask = if a.sa_flags.nodefer then both else add_signal both signal } in
    let default : Action = record { fn = sig_dfl; sa_mask = empty_set; sa_flags = no_flags } in
    ((a.sa_flags.siginfo ≡ true) × (result ≡ cb.sigaction_fn a.fn signal masked))
    ⊎ (((a.sa_flags.siginfo ≡ false) × (a.fn ≡ sig_ign) × (result ≡ v))
        ⊎ (((a.sa_flags.siginfo ≡ false)
              × (a.fn ≡ sig_dfl)
              × (result ≡ cb.raise signal (linked_sigaction signal (some default) v)))
            ⊎ ((a.sa_flags.siginfo ≡ false)
                × (a.fn ≢ sig_ign)
                × (a.fn ≢ sig_dfl)
                × (result ≡ cb.handler_fn a.fn signal masked))))

-- The functions that a chain calls, when `accepts` tells which of them take the signal: one
-- after the other up to the first that takes it, or up to a null pointer.
abbrev pub calls : (ℕ → Bool) → List SignalAction → List ℕ
calls accepts [] = []
calls accepts (h ∷ hs) =
    if h.sa_signal_action == 0
    then []
    else h.sa_signal_action ∷ (if accepts h.sa_signal_action then [] else calls accepts hs)

abbrev pub push_all : List ℕ → List ℕ → List ℕ
push_all [] t = t
push_all (f ∷ fs) t = push_all fs (f ∷ t)

-- With functions that note their call in the trace and answer by `accepts`, the trace shows that
-- the chain calls the handlers in that order and no other.
pub run_chain-calls :
    (cb : Callbacks) (signal : ℕ) (is_async : Bool) (accepts : ℕ → Bool)
    → ((f s : ℕ) (w : World) → cb.action f s w ≡ (record w { trace = f ∷ w.trace }, accepts f))
    → (hs : List SignalAction) (w : World)
    → (run_chain cb signal is_async hs w).0.trace ≡ push_all (calls accepts hs) w.trace
unfolding run_chain
run_chain-calls cb signal is_async accepts notes [] w = refl
run_chain-calls cb signal is_async accepts notes (a ∷ hs) w =
    let entered : World = record w {
      mask = a.sc_mask;
      handling = if is_async then w.handling else true;
    } in
    let after = (cb.action a.sa_signal_action signal entered).0 in
    ground (
      arith,
      notes a.sa_signal_action signal entered,
      run_chain-calls cb signal is_async accepts notes hs
          (record after { mask = w.mask; handling = w.handling }),
    )

-- The mask after a chain that was taken, if the functions leave the mask alone: it is the mask of
-- the handler that took the signal, and not the mask before the signal.
pub run_chain-mask :
    (cb : Callbacks) (signal : ℕ) (is_async : Bool)
    → ((f s : ℕ) (w : World) → (cb.action f s w).0.mask ≡ w.mask)
    → (hs : List SignalAction) (w : World) → (run_chain cb signal is_async hs w).1 ≡ true
    → (h : SignalAction) × Memᴰ h hs × ((run_chain cb signal is_async hs w).0.mask ≡ h.sc_mask)
unfolding run_chain
run_chain-mask cb signal is_async keeps [] w taken = absurd (cc)
run_chain-mask cb signal is_async keeps (a ∷ hs) w taken =
    elim (Bool-cases (cb.action a.sa_signal_action signal entered).1) [
      | inl yes_taken ↦ (a, head refl, ground (arith, keeps a.sa_signal_action signal entered))
      | inr declined ↦
          let (h, m, e) =
            run_chain-mask cb signal is_async keeps hs
              (record after { mask = w.mask; handling = w.handling }) (ground arith) in
          (h, tail m, ground arith)
    ]
  where
    entered : World
    entered = record w { mask = a.sc_mask; handling = if is_async then w.handling else true }

    after : World
    after = (cb.action a.sa_signal_action signal entered).0
