-- ===== src/Signal/Stack/Handlers.antt =====
-- The chain of handlers of one signal.
use cjcj_runtime.Base.{ℕ, ◌≡◌, ◌++◌, List, [], ◌∷◌, arith, ◌==◌, ◌==◌, if◌then◌else◌, ◌+◌, ◌-◌}
use cjcj_runtime.Signal.World.{SignalAction, SignalStack}
use cjcj_runtime.Signal.Stack.{add_handler, remove_first, remove_handler}

-- How many handlers of a list have the function `fn`.
abbrev pub count_of : ℕ → List SignalAction → ℕ
count_of fn [] = 0
count_of fn (h ∷ hs) = (if h.sa_signal_action == fn then 1 else 0) + count_of fn hs

-- Removal drops one handler with the function if there is one, and every other function keeps all
-- its handlers.
pub count_of-remove_first :
    (fn g : ℕ) (hs : List SignalAction)
    → count_of g (remove_first fn hs) ≡ (if g == fn then count_of g hs - 1 else count_of g hs)
unfolding remove_first
count_of-remove_first fn g [] = ground arith
count_of-remove_first fn g (h ∷ hs) = ground (arith, count_of-remove_first fn g hs)

remove_first-append :
    (h : SignalAction) (hs : List SignalAction)
    → count_of h.sa_signal_action hs ≡ 0
    → remove_first h.sa_signal_action (hs ++ h ∷ []) ≡ hs
unfolding remove_first
remove_first-append h [] e = ground arith
remove_first-append h (x ∷ hs) e = ground (arith, remove_first-append h hs)

-- Removing a handler takes back its addition, if no handler added before has the same function.
pub remove_handler-add_handler :
    (h : SignalAction) (t : SignalStack)
    → count_of h.sa_signal_action t.handler_stack ≡ 0
    → remove_handler h.sa_signal_action (add_handler h t) ≡ t
unfolding remove_handler add_handler
remove_handler-add_handler h t e = ground (arith, remove_first-append h t.handler_stack)
