-- ===== src/Atomic/Tickets.antt =====
-- A counter in memory that threads advance by `fetch_add`, as the bump allocation of the forward
-- data does. The list of the increments is the order in which the additions take effect.
use cjcj_runtime.Base.{ℕ, ◌+◌, ◌%◌, ◌^◌, ◌<◌, ◌≡◌, refl, arith, List, [], ◌∷◌, ◌∙◌, ap}
use cjcj_runtime.Atomic.Bytes.{read-write}
use cjcj_runtime.Atomic.{Memory, read, fetch, apply_op, uintptr_fetch_add}

-- The values that the additions return, and the memory after them.
abbrev pub fetch_adds : Memory → ℕ → List ℕ → List ℕ × Memory
fetch_adds m p [] = ([], m)
fetch_adds m p (v ∷ vs) =
    let (k, old) = uintptr_fetch_add m p v in
    let (olds, last) = fetch_adds k p vs in (old ∷ olds, last)

abbrev pub sum : List ℕ → ℕ
sum [] = 0
sum (v ∷ vs) = v + sum vs

-- The starts of consecutive ranges of the given lengths.
abbrev pub starts : ℕ → List ℕ → List ℕ
starts a [] = []
starts a (v ∷ vs) = a ∷ starts (a + v) vs

old_count : (m : Memory) (p v : ℕ) → (uintptr_fetch_add m p v).1 ≡ read 8 m p
unfolding uintptr_fetch_add fetch
old_count m p v = refl

new_count :
    (m : Memory) (p v : ℕ)
    → read 8 m p + v < 2 ^ 64
    → read 8 (uintptr_fetch_add m p v).0 p ≡ read 8 m p + v
unfolding uintptr_fetch_add fetch apply_op
new_count m p v h = read-write 8 m p ((read 8 m p + v) % 2 ^ 64) ∙ omega arith

-- As long as the sum does not leave the word, the threads get consecutive ranges: no two of them
-- overlap and none is lost, and the counter ends behind the last.
pub fetch_adds-starts :
    (vs : List ℕ) (m : Memory) (p : ℕ)
    → read 8 m p + sum vs < 2 ^ 64
    → ((fetch_adds m p vs).0 ≡ starts (read 8 m p) vs)
      × (read 8 (fetch_adds m p vs).1 p ≡ read 8 m p + sum vs)
fetch_adds-starts [] m p h = (refl, omega arith)
fetch_adds-starts (v ∷ vs) m p h =
    let (olds, last) =
      fetch_adds-starts vs (uintptr_fetch_add m p v).0 p (omega (arith, new_count m p v)) in
    (
      cc (old_count m p v, olds, ap (λ a. starts a vs) (new_count m p v (omega arith))),
      omega (arith, last, new_count m p v),
    )
