-- ===== src/Locks/RwLock/Exclusion.antt =====
-- src/rt.base/RwLock.cj: readers and writers in every interleaving.
use cjcj_runtime.Base.{
  sym, ℕ, suc, ◌+◌, ◌^◌, ◌≡◌, ◌<◌, ◌≤◌, ◌⊎◌, inr, arith, List, [], ◌∷◌, ◌++◌, ap, ◌∙◌, length,
  length-append,
}
use cjcj_runtime.Locks.RwLock.{
  write_locked, Pc, reading, writing, releasing, aborted, Move, load, spin, reload, refuse,
  enter_read, miss_read, enter_write, miss_write, leave_read, check_write, leave_write, fail_write,
  System, Step, move, Reach, here, next,
}

abbrev is_reader : Pc → ℕ
is_reader reading = 1
is_reader _ = 0

abbrev is_writer : Pc → ℕ
is_writer writing = 1
is_writer releasing = 1
is_writer _ = 0

abbrev is_aborted : Pc → ℕ
is_aborted aborted = 1
is_aborted _ = 0

abbrev total : (Pc → ℕ) → List Pc → ℕ
total w [] = 0
total w (p ∷ ps) = w p + total w ps

abbrev pub readers : List Pc → ℕ
readers = total is_reader

abbrev pub writers : List Pc → ℕ
writers = total is_writer

abbrev pub aborts : List Pc → ℕ
aborts = total is_aborted

total-append : (w : Pc → ℕ) (ps qs : List Pc) → total w (ps ++ qs) ≡ total w ps + total w qs
total-append w [] qs = omega arith
total-append w (p ∷ ps) qs = omega (arith, total-append w ps qs)

-- The count tells what the threads hold.
pub record Inv (s : System) : Type 0 where
  pub held :
      ((writers s.threads ≡ 1) × (readers s.threads ≡ 0) × (s.count ≡ write_locked))
      ⊎ ((writers s.threads ≡ 0) × (s.count ≡ readers s.threads))
  pub no_abort : aborts s.threads ≡ 0

-- The same on three numbers, which a move changes by those of its thread.
abbrev Held : ℕ → ℕ → ℕ → Type 0
Held c r w = ((w ≡ 1) × (r ≡ 0) × (c ≡ write_locked)) ⊎ ((w ≡ 0) × (c ≡ r))

Move-Held :
    {c d : ℕ} {old new : Pc} (r w : ℕ)
    → Move c old d new
    → r + 1 < 2 ^ 31
    → Held c (r + is_reader old) (w + is_writer old)
    → Held d (r + is_reader new) (w + is_writer new) × (is_aborted new ≡ 0)
Move-Held r w load small h = ground arith
Move-Held r w (spin c e) small h = ground arith
Move-Held r w reload small h = ground arith
Move-Held r w (refuse c e) small h = ground arith
Move-Held r w (enter_read c n e) small h = ground arith
Move-Held r w (miss_read c n e) small h = ground arith
Move-Held r w (enter_write e) small h = ground arith
Move-Held r w (miss_write e) small h = ground arith
Move-Held {c} r w (leave_read k e) small h = ground arith
Move-Held r w (check_write e) small h = ground arith
Move-Held r w leave_write small h = ground arith
Move-Held r w (fail_write e) small h = ground arith

readers-le : (ps : List Pc) → readers ps ≤ length ps
readers-le [] = omega arith
readers-le (reading ∷ ps) = omega (arith, readers-le ps)
readers-le (p ∷ ps) = omega (arith, readers-le ps)

total-middle :
    (w : Pc → ℕ) (b a : List Pc) (p : Pc) → total w (b ++ p ∷ a) ≡ total w b + total w a + w p
total-middle w b a p = omega (arith, total-append w b (p ∷ a))

Step-Inv :
    (s t : System)
    → Step s t
    → length s.threads < 2 ^ 31
    → Inv s
    → Inv t × (length t.threads ≡ length s.threads)
Step-Inv s t (move b a old new d e m) small v =
    let r : ℕ = readers b + readers a in
    let w : ℕ = writers b + writers a in
    let size : length s.threads ≡ length b + suc (length a) =
      ap length e ∙ length-append b (old ∷ a) in
    let before : Held s.count (r + is_reader old) (w + is_writer old) = ground (
      arith,
      v.held,
      ap readers e,
      ap writers e,
      total-middle is_reader b a old,
      total-middle is_writer b a old,
    ) in
    let (held, fine) = Move-Held r w m (omega (arith, size, readers-le b, readers-le a)) before in
    (
      record {
        held = ground (arith, held, total-middle is_reader b a new, total-middle is_writer b a new);
        no_abort = omega (
          arith,
          fine,
          v.no_abort,
          ap aborts e,
          total-middle is_aborted b a old,
          total-middle is_aborted b a new,
        );
      },
      omega (arith, size, length-append b (new ∷ a)),
    )

Reach-Inv :
    {s t : System}
    → Reach s t
    → length s.threads < 2 ^ 31
    → Inv s
    → Inv t × (length t.threads < 2 ^ 31)
Reach-Inv here small v = (v, small)
Reach-Inv (next {t} {u} r st) small v =
    let (w, l) = Reach-Inv r small v in let (x, e) = Step-Inv t u st l w in (x, omega (arith, e))

-- Started free with all threads outside, in every interleaving of fewer than 2 ^ 31 threads: a
-- writer is alone and the count is then -1, and otherwise the count is the number of readers. No
-- thread that leaves finds a count that makes it abort.
pub Reach-Inv_free :
    (s t : System)
    → s.count ≡ 0
    → readers s.threads ≡ 0
    → writers s.threads ≡ 0
    → aborts s.threads ≡ 0
    → length s.threads < 2 ^ 31
    → Reach s t
    → Inv t
Reach-Inv_free s t free no_reader no_writer fine small r =
    (Reach-Inv r small (record { held = inr (no_writer, free ∙ sym no_reader); no_abort = fine })).0
