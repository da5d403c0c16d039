-- ===== src/StateWord.antt =====
-- src/rt.common/StateWord.cj: the word in front of every object, with the address of its TypeInfo in
-- six bytes and its state in the last two. The two lowest bits of the state are its code, and the
-- code LOCKED makes the word a lock.
pub mod Fields
pub mod Lock
use cjcj_runtime.Base.{
  ℕ, ◌+◌, ◌-◌, ◌*◌, ◌/◌, ◌%◌, ◌^◌, Bool, false, ◌==◌, not, if◌then◌else◌, add64,
}
use cjcj_runtime.Atomic.{Memory, read, write, u16_load, stateword_u16_cas}

-- The codes NORMAL, LOCKED, FORWARDING and FORWARDED.
abbrev pub normal : ℕ
normal = 0

abbrev pub locked : ℕ
locked = 1

abbrev pub forwarding : ℕ
forwarding = 2

abbrev pub forwarded : ℕ
forwarded = 3

-- `& 0x3` on the state.
abbrev pub code_of : ℕ → ℕ
code_of bits = bits % 4

-- The operations of an `ObjectState` at an address.
unfoldable pub get_state_bits : Memory → ℕ → ℕ
get_state_bits m a = read 2 m a

unfoldable pub set_state_bits : Memory → ℕ → ℕ → Memory
set_state_bits m a bits = write 2 m a bits

unfoldable pub atomic_get_state_bits : Memory → ℕ → ℕ
unfolding u16_load
atomic_get_state_bits m a = u16_load m a

unfoldable pub compare_exchange_state_bits : Bool → Memory → ℕ → ℕ → ℕ → Memory × Bool
compare_exchange_state_bits spurious m a expected new = stateword_u16_cas spurious m a expected new

-- `(oldState & 0xfffc) | (state & 0x3)`: the two parts have no bit in common.
abbrev pub with_code : ℕ → ℕ → ℕ
with_code old state = old - code_of old + code_of state

unfoldable pub state_address : ℕ → ℕ
state_address p = add64 p 6

-- The operations of a `StateWord` at `p`.
unfoldable pub get_state_code : Memory → ℕ → ℕ
unfolding get_state_bits state_address
get_state_code m p = code_of (get_state_bits m (state_address p))

unfoldable pub set_state_code : Memory → ℕ → ℕ → Memory
unfolding get_state_bits set_state_bits state_address
set_state_code m p state =
    let a = state_address p in set_state_bits m a (with_code (get_state_bits m a) state)

unfoldable pub is_forwardable_state : Memory → ℕ → Bool
unfolding get_state_code
is_forwardable_state m p = get_state_code m p == normal

unfoldable pub is_forwarded_state : Memory → ℕ → Bool
unfolding get_state_code
is_forwarded_state m p = get_state_code m p == forwarded

unfoldable pub is_locked_word : Memory → ℕ → Bool
unfolding get_state_code
is_locked_word m p = get_state_code m p == locked

-- `GetObjectState`, as its bits.
unfoldable pub get_object_state : Memory → ℕ → ℕ
unfolding atomic_get_state_bits state_address
get_object_state m p = atomic_get_state_bits m (state_address p)

-- The address of the TypeInfo on targets other than 32-bit ARM: the shift and the `|` of two numbers
-- with no bit in common.
unfoldable pub get_type_info : Memory → ℕ → ℕ
get_type_info m p = read 2 m (add64 p 4) * 2 ^ 32 + read 4 m p

unfoldable pub set_type_info : Memory → ℕ → ℕ → Memory
set_type_info m p address =
    write 2 (write 4 m p (address % 2 ^ 32)) (add64 p 4) ((address / 2 ^ 32) % 2 ^ 16)

unfoldable pub is_valid_state_word : Memory → ℕ → Bool
unfolding get_type_info
is_valid_state_word m p = not (get_type_info m p == 0)

-- `TryLockStateWord` with the state that the caller has seen before. `spurious`: the weak
-- compare-exchange fails by itself.
unfoldable pub try_lock_state_word : Bool → Memory → ℕ → ℕ → Memory × Bool
unfolding compare_exchange_state_bits state_address
try_lock_state_word spurious m p current =
    if code_of current == locked
    then (m, false)
    else compare_exchange_state_bits spurious m (state_address p) current locked
