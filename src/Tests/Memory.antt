-- ===== src/Tests/Memory.antt =====
-- Runs of rt0/Atomic.cpp on a memory that holds the numbers from 0 to 255 over and over.
use cjcj_runtime.Base.{ℕ, ◌+◌, ◌%◌, ◌^◌, ◌<◌, ◌≤◌, ◌≡◌, ◌⊎◌, refl, some, arith}
use cjcj_runtime.Atomic.{Memory, read, field_load, field_store}
use cjcj_runtime.Atomic.Bytes.{IsBytes}
use cjcj_runtime.Atomic.Fields.{field_load-field_store}

abbrev memory : Memory
memory a = a % 256

memory-IsBytes : IsBytes memory
memory-IsBytes a = omega arith

field_load-field_store_example :
    (k : Memory) × (field_store memory 16 32 4 ≡ some k)
    × (field_load k 16 4 ≡ field_load memory 32 4)
    × ((q : ℕ) → (q < 16) ⊎ (20 ≤ q) → k q ≡ memory q)
field_load-field_store_example = field_load-field_store memory memory-IsBytes 16 32 4 refl

small : read 8 memory 256 + 48 < 2 ^ 64
unfolding read
small = omega arith
