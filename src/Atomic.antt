-- ===== src/Atomic.antt =====
-- rt0/Atomic.cpp: the atomic operations on storage that the caller owns. Memory is byte
-- addressed and little-endian, as on every target of the repository. An operation is one step;
-- the memory orders make no difference between single steps.
pub mod Bytes
pub mod Fields
pub mod Tickets
use Prim.Native.Nat.{bit_and, bit_or, bit_xor}
use cjcj_runtime.Base.{
  ℕ, zero, suc, ◌+◌, ◌-◌, ◌*◌, ◌/◌, ◌%◌, ◌^◌, Bool, Option, none, some, ◌==◌, ◌||◌, if◌then◌else◌,
  true, false,
}

abbrev pub Memory : Type 0
Memory = ℕ → ℕ

abbrev pub set_byte : Memory → ℕ → ℕ → Memory
set_byte m p b q = if q == p then b else m q

-- The number in `n` bytes from `p` on.
unfoldable pub read : ℕ → Memory → ℕ → ℕ
read zero m p = 0
read (suc n) m p = m p + 256 * read n m (suc p)

unfoldable pub write : ℕ → Memory → ℕ → ℕ → Memory
write zero m p v = m
write (suc n) m p v = set_byte (write n m (suc p) (v / 256)) p (v % 256)

-- `__atomic_compare_exchange_n` on a number of `n` bytes whose expected value stands in memory:
-- on success the desired value is written, on failure the current one goes to `expected`.
unfoldable pub compare_exchange : ℕ → Memory → ℕ → ℕ → ℕ → Memory × Bool
compare_exchange n m p expected desired =
    if read n m p == read n m expected
    then (write n m p desired, true)
    else (write n m expected (read n m p), false)

-- The same with the expected value by itself, which a failure does not show.
unfoldable pub compare_exchange_value : ℕ → Memory → ℕ → ℕ → ℕ → Memory × Bool
compare_exchange_value n m p expected desired =
    if read n m p == expected then (write n m p desired, true) else (m, false)

-- `__atomic_exchange_n` and the `__atomic_fetch` operations return the value before.
unfoldable pub exchange : ℕ → Memory → ℕ → ℕ → Memory × ℕ
exchange n m p desired = (write n m p desired, read n m p)

pub data FetchOp : Type 0 where
  add sub and or xor : FetchOp

-- On numbers below `w`.
unfoldable pub apply_op : FetchOp → ℕ → ℕ → ℕ → ℕ
apply_op add w a b = (a + b) % w
apply_op sub w a b = (a + w - b) % w
apply_op and w a b = bit_and a b
apply_op or w a b = bit_or a b
apply_op xor w a b = bit_xor a b

unfoldable pub fetch : FetchOp → ℕ → Memory → ℕ → ℕ → Memory × ℕ
fetch o n m p v = (write n m p (apply_op o (256 ^ n) (read n m p) v), read n m p)

-- Lines 11 to 15: the flag is a byte, set to 1 and cleared to 0.
unfoldable pub flag_test_and_set : Memory → ℕ → Memory × Bool
flag_test_and_set m p = (set_byte m p 1, if m p == 0 then false else true)

unfoldable pub flag_clear : Memory → ℕ → Memory
flag_clear m p = set_byte m p 0

-- Lines 17 to 26; an `int32_t` is its bit pattern.
unfoldable pub i32_cas : Memory → ℕ → ℕ → ℕ → Memory × Bool
i32_cas m p expected desired = compare_exchange_value 4 m p expected desired

unfoldable pub i32_load : Memory → ℕ → ℕ
i32_load m p = read 4 m p

unfoldable pub i32_store : Memory → ℕ → ℕ → Memory
i32_store m p v = write 4 m p v

unfoldable pub i32_fetch_sub : Memory → ℕ → ℕ → Memory × ℕ
i32_fetch_sub m p v = fetch sub 4 m p v

-- Lines 28 to 86: the operations on one width each.
unfoldable pub u8_cas : Memory → ℕ → ℕ → ℕ → Memory × Bool
u8_cas m p expected desired = compare_exchange 1 m p expected desired

unfoldable pub u8_load : Memory → ℕ → ℕ
u8_load m p = read 1 m p

unfoldable pub u8_store : Memory → ℕ → ℕ → Memory
u8_store m p v = write 1 m p v

unfoldable pub u16_cas : Memory → ℕ → ℕ → ℕ → Memory × Bool
u16_cas m p expected desired = compare_exchange 2 m p expected desired

unfoldable pub u16_load : Memory → ℕ → ℕ
u16_load m p = read 2 m p

unfoldable pub u16_store : Memory → ℕ → ℕ → Memory
u16_store m p v = write 2 m p v

unfoldable pub u16_fetch_add : Memory → ℕ → ℕ → Memory × ℕ
u16_fetch_add m p v = fetch add 2 m p v

-- The sequentially consistent load and the acquire load.
unfoldable pub u64_load : Memory → ℕ → ℕ
u64_load m p = read 8 m p

unfoldable pub u64_fetch_add : Memory → ℕ → ℕ → Memory × ℕ
u64_fetch_add m p v = fetch add 8 m p v

unfoldable pub u64_fetch_or : Memory → ℕ → ℕ → Memory × ℕ
u64_fetch_or m p v = fetch or 8 m p v

unfoldable pub uintptr_fetch_add : Memory → ℕ → ℕ → Memory × ℕ
uintptr_fetch_add m p v = fetch add 8 m p v

-- The loads of three memory orders.
unfoldable pub uintptr_load : Memory → ℕ → ℕ
uintptr_load m p = read 8 m p

unfoldable pub uintptr_store : Memory → ℕ → ℕ → Memory
uintptr_store m p v = write 8 m p v

unfoldable pub u32_store : Memory → ℕ → ℕ → Memory
u32_store m p v = write 4 m p v

-- Lines 91 to 157: the operations that take the size. Any other size traps.
abbrev pub is_size : ℕ → Bool
is_size n = n == 1 || (n == 2 || (n == 4 || n == 8))

unfoldable pub field_load : Memory → ℕ → ℕ → Option ℕ
field_load m p size = if is_size size then some (read size m p) else none

unfoldable pub field_store : Memory → ℕ → ℕ → ℕ → Option Memory
field_store m p value size =
    if is_size size then some (write size m p (read size m value)) else none

unfoldable pub field_compare_exchange : Memory → ℕ → ℕ → ℕ → ℕ → Option (Memory × Bool)
field_compare_exchange m p expected desired size =
    if is_size size then some (compare_exchange size m p expected (read size m desired)) else none

unfoldable pub field_exchange : Memory → ℕ → ℕ → ℕ → Option (Memory × ℕ)
field_exchange m p desired size =
    if is_size size then some (exchange size m p (read size m desired)) else none

unfoldable pub field_fetch : FetchOp → Memory → ℕ → ℕ → ℕ → Option (Memory × ℕ)
field_fetch o m p operand size =
    if is_size size then some (fetch o size m p (read size m operand)) else none

-- Lines 159 to 166. On x86-64 the exchange is the weak one, which may fail though the values are
-- equal; `spurious` says that it does.
unfoldable pub stateword_u16_cas : Bool → Memory → ℕ → ℕ → ℕ → Memory × Bool
stateword_u16_cas spurious m p expected desired =
    if spurious then (m, false) else compare_exchange_value 2 m p expected desired
