-- ===== src/Signal/Calls/Masks.antt =====
-- `sigprocmask` as the application sees it.
use cjcj_runtime.Base.{
  ℕ, zero, suc, ◌+◌, Bool, some, ◌≡◌, ◌==◌, ◌&&◌, not, leb, ltb, if◌then◌else◌, true, false, arith,
  Bool-cases, inl, inr, ◌∙◌,
}
use cjcj_runtime.Signal.World.{Sigset, World, delete_signal}
use cjcj_runtime.Signal.Calls.{
  How, block, unblock, setmask, adjusts, is_signal, adjust_from, adjust_signal_mask,
  linked_sigprocmask, sigprocmask,
}

-- One round of the loop.
abbrev round : World → ℕ → Sigset → Sigset
round w i set = if (w.stacks i).is_mark && set i then delete_signal set i else set

round_lem :
    (w : World) (i s : ℕ) (set : Sigset)
    → round w i set s ≡ (if s == i && (w.stacks s).is_mark then false else set s)
round_lem w i s set = elim (Bool-cases ((w.stacks i).is_mark && set i)) [
  | inl t ↦ rw t (ground arith)
  | inr f ↦ rw f (ground arith)
]

adjust_from_lem :
    (n i s : ℕ) (w : World) (set : Sigset)
    → adjust_from n i w set s
      ≡ (if (leb i s && ltb s (i + n)) && (w.stacks s).is_mark then false else set s)
unfolding adjust_from
adjust_from_lem zero i s w set = ground arith
adjust_from_lem (suc n) i s w set =
    adjust_from_lem n (suc i) s w (round w i set) ∙ rw (round_lem w i s set) (ground arith)

-- The loop takes out the marked signals, which are numbered from 1 to 64, and nothing else.
pub adjust_signal_mask_lem :
    (w : World) (set : Sigset) (s : ℕ)
    → adjust_signal_mask w set s ≡ (if is_signal s && (w.stacks s).is_mark then false else set s)
unfolding adjust_signal_mask
adjust_signal_mask_lem w set s = adjust_from_lem 64 1 s w set ∙ ground arith

abbrev pub is_block : How → Bool
is_block block = true
is_block unblock = false
is_block setmask = false

abbrev pub is_unblock : How → Bool
is_unblock block = false
is_unblock unblock = true
is_unblock setmask = false

-- Outside a handler, a call that blocks signals or sets the mask never blocks a marked signal: one
-- that was free stays free, and after `SIG_SETMASK` all marked signals are free. Unblocking, and
-- every signal that is not marked, goes as in the C library.
pub sigprocmask-mask :
    (how : How) (set : Sigset) (w : World) (s : ℕ)
    → w.handling ≡ false
    → (sigprocmask how (some set) w).0.mask s ≡ (
        if not (is_unblock how) && (is_signal s && (w.stacks s).is_mark)
        then is_block how && w.mask s
        else (linked_sigprocmask how (some set) w).mask s)
unfolding sigprocmask linked_sigprocmask
sigprocmask-mask block set w s idle = ground (arith, adjust_signal_mask_lem w set s)
sigprocmask-mask unblock set w s idle = ground arith
sigprocmask-mask setmask set w s idle = ground (arith, adjust_signal_mask_lem w set s)

-- The set that the caller passes by a pointer to const is changed: afterwards it lacks every
-- marked signal, where the call blocks signals or sets the mask outside a handler.
pub sigprocmask-new_set :
    (how : How) (set : Sigset) (w : World) (s : ℕ)
    → w.handling ≡ false
    → adjusts how ≡ true
    → is_signal s ≡ true
    → (w.stacks s).is_mark ≡ true
    → (after : Sigset) × ((sigprocmask how (some set) w).2 ≡ some after) × (after s ≡ false)
unfolding sigprocmask
sigprocmask-new_set how set w s idle adj valid marked =
    (adjust_signal_mask w set, ground arith, ground (arith, adjust_signal_mask_lem w set s))
