-- ===== src/Signal/Calls/Actions.antt =====
-- `sigaction` and `signal` as the application sees them.
use cjcj_runtime.Base.{
  ℕ, List, [], ◌∷◌, Option, none, some, ◌≡◌, ◌==◌, if◌then◌else◌, true, false, arith,
}
use cjcj_runtime.Signal.World.{Action, World, set_stack, linked_sigaction}
use cjcj_runtime.Signal.Stack.{handler_action, mark_sig}
use cjcj_runtime.Signal.Calls.{
  Outcome, done, failed, is_signal, linked_result, signal_action, sigaction, set_handler,
}

-- The action of a signal that a query by `sigaction` reports.
abbrev pub reported : ℕ → World → Outcome Action
reported s w = (sigaction s none w).1

-- A signal that the runtime and the C library accept, for a query and for a new action.
abbrev pub IsAccepted : ℕ → World → Type 0
IsAccepted s w = (is_signal s ≡ true) × (w.refuses s true ≡ false) × (w.refuses s false ≡ false)

-- After an accepted signal is given an action, a query reports that action for this signal and the
-- same as before for any other, whether the runtime has marked the signal or not.
pub sigaction-reported :
    (s t : ℕ) (a : Action) (w : World)
    → IsAccepted s w
    → reported t (sigaction s (some a) w).0 ≡ (if t == s then done a else reported t w)
unfolding sigaction linked_result
sigaction-reported s t a w h = ground arith

abbrev pub handler_of : Outcome Action → Outcome ℕ
handler_of (done a) = done a.fn
handler_of failed = failed

-- So it is after the call `signal`, whose result is the handler that was reported before.
pub set_handler-reported :
    (s t f : ℕ) (w : World)
    → IsAccepted s w
    → (reported t (set_handler s f w).0 ≡ (if t == s then done (signal_action f) else reported t w))
      × ((set_handler s f w).1 ≡ handler_of (reported s w))
unfolding sigaction set_handler linked_result
set_handler-reported s t f w h = ground arith

-- A number that is no signal is refused and changes nothing, by either call.
pub invalid_signal :
    (s f : ℕ) (a : Option Action) (w : World)
    → is_signal s ≡ false
    → (sigaction s a w ≡ (w, failed)) × (set_handler s f w ≡ (w, failed))
unfolding sigaction set_handler linked_result
invalid_signal s f a w h = ground arith

module _ (handler_address : ℕ) where
  -- That the runtime takes over a signal that it and the C library accept cannot be seen by a query
  -- of any signal.
  pub mark_sig-reported :
      (s t : ℕ) (w : World)
      → IsAccepted s w
      → reported t (mark_sig handler_address s w) ≡ reported t w
  unfolding mark_sig sigaction set_stack linked_sigaction linked_result
  mark_sig-reported s t w h = ground arith

  -- The calls that an application and the runtime make.
  pub data Call : Type 0 where
    sigactions : ℕ → Option Action → Call
    sets_handler : ℕ → ℕ → Call
    marks : ℕ → Call

  unfoldable pub step : World → Call → World
  step w (sigactions s a) = (sigaction s a w).0
  step w (sets_handler s f) = (set_handler s f w).0
  step w (marks s) = mark_sig handler_address s w

  unfoldable pub run : World → List Call → World
  unfolding step
  run w [] = w
  run w (c ∷ cs) = run (step w c) cs

  -- For each marked signal that can be given an action the kernel holds the runtime's own handler.
  abbrev pub IsInstalled : World → Type 0
  IsInstalled w =
      (s : ℕ)
      → (w.stacks s).is_mark ≡ true
      → w.refuses s true ≡ false
      → w.kernel s ≡ handler_action handler_address

  step-IsInstalled : (w : World) (c : Call) → IsInstalled w → IsInstalled (step w c)
  unfolding step sigaction set_handler mark_sig set_stack linked_sigaction
  step-IsInstalled w (sigactions s none) v t m c = ground (arith, v t)
  step-IsInstalled w (sigactions s (some a)) v t m c = ground (arith, v t)
  step-IsInstalled w (sets_handler s f) v t m c = ground (arith, v t)
  step-IsInstalled w (marks s) v t m c = ground (arith, v t)

  -- If the kernel holds the runtime's handler for each marked signal that can be given an action, it
  -- does so after any sequence of the calls `sigaction`, `signal` and `MarkSig`.
  pub run-IsInstalled : (w : World) (cs : List Call) → IsInstalled w → IsInstalled (run w cs)
  unfolding run
  run-IsInstalled w [] v = v
  run-IsInstalled w (c ∷ cs) v = run-IsInstalled (step w c) cs (step-IsInstalled w c v)
