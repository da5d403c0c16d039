-- ===== src/Signal/Stack.antt =====
-- The methods of one `SignalStack`: SignalStack.h and SignalStack.cpp, lines 78-91 and 257-280.
pub mod Handlers
use cjcj_runtime.Base.{ℕ, Bool, List, [], ◌∷◌, ◌++◌, none, some, ◌==◌, if◌then◌else◌, true, false}
use cjcj_runtime.Signal.World.{
  Action, SignalAction, SignalStack, World, Flags, full_set, no_flags, sig_dfl, empty_set,
  set_stack, linked_sigaction,
}

-- The constructor. `sigAction` is a static object, so it starts as zeros.
abbrev pub new_stack : SignalStack
new_stack = record {
  is_mark = false;
  is_user_sig_handler = false;
  handler_stack = [];
  sig_action = record { fn = sig_dfl; sa_mask = empty_set; sa_flags = no_flags };
}

unfoldable pub add_handler : SignalAction → SignalStack → SignalStack
add_handler sa t = record t { handler_stack = t.handler_stack ++ sa ∷ [] }

-- `erase` of the first handler with the function, from the front of the vector, then `break`.
unfoldable pub remove_first : ℕ → List SignalAction → List SignalAction
remove_first fn [] = []
remove_first fn (h ∷ hs) = if h.sa_signal_action == fn then hs else h ∷ remove_first fn hs

unfoldable pub remove_handler : ℕ → SignalStack → SignalStack
remove_handler fn t = record t { handler_stack = remove_first fn t.handler_stack }

unfoldable pub set_user_sig_handler : Bool → SignalStack → SignalStack
set_user_sig_handler flag t = record t { is_user_sig_handler = flag }

-- `SA_RESTART | SA_SIGINFO | SA_ONSTACK`.
abbrev pub register_flags : Flags
register_flags = record { nodefer = false; siginfo = true; restart = true; onstack = true }

-- The address of `SignalStack::Handler`.
module _ (handler_address : ℕ) where
  abbrev pub handler_action : Action
  handler_action = record { fn = handler_address; sa_mask = full_set; sa_flags = register_flags }

  -- The kernel's old action is kept in `sigAction` of the stack of the signal, if the call does not
  -- fail; the result is not tested. The second call, which only queries, changes nothing.
  unfoldable pub register : ℕ → World → World
  register signal w = linked_sigaction signal none (
      linked_sigaction signal (some handler_action) (
        if w.refuses signal true
        then w
        else set_stack w signal (record (w.stacks signal) { sig_action = w.kernel signal })))

  unfoldable pub mark_sig : ℕ → World → World
  unfolding register
  mark_sig signal w =
      if (w.stacks signal).is_mark
      then w
      else (let w' = register signal w in
          set_stack w' signal (record (w'.stacks signal) { is_mark = true }))
