-- ===== src/Tests/Words.antt =====
-- The word of an object: its fields, and two threads at its lock; and the bitmap of a type.
use cjcj_runtime.Base.{
  List, [], ◌∷◌, some, inl, ℕ, ◌/◌, ◌≡◌, ◌≢◌, refl, arith, true, false, if◌then◌else◌,
}
use cjcj_runtime.GcTib.{GcTib, for_each_bitmap_word, for_each_bitmap_word_in_range, gctib_shift}
use cjcj_runtime.GcTib.Bits.{keep}
use cjcj_runtime.GcTib.Range.Fields.{
  is_in_range, for_each_bitmap_word_in_range-for_each_bitmap_word,
}
use cjcj_runtime.Atomic.{Memory, stateword_u16_cas, compare_exchange_value, read}
use cjcj_runtime.StateWord.{
  try_lock_state_word, get_type_info, set_type_info, get_object_state, get_state_code,
  set_state_code, is_locked_word,
}
use cjcj_runtime.StateWord.Fields.{get_type_info-set_type_info, get_state_code-set_state_code}
use cjcj_runtime.StateWord.Lock.{
  Threads, set_phase, outside, inside, rt_fatal, Reach, here, next, tries, Reach-alone, Reach-never,
}

abbrev clear : Memory
clear q = 0

get_type_info-set_type_info_example :
    (get_type_info (set_type_info clear 64 0x7f0012345678) 64 ≡ 0x7f0012345678)
    × (get_object_state (set_type_info clear 64 0x7f0012345678) 64 ≡ get_object_state clear 64)
get_type_info-set_type_info_example =
    get_type_info-set_type_info clear 64 (omega arith) 0x7f0012345678 (omega arith)

get_state_code-set_state_code_example :
    (get_state_code (set_state_code clear 64 3) 64 ≡ 3)
    × (get_object_state (set_state_code clear 64 3) 64 / 4 ≡ get_object_state clear 64 / 4)
    × (get_type_info (set_state_code clear 64 3) 64 ≡ get_type_info clear 64)
get_state_code-set_state_code_example =
    get_state_code-set_state_code clear 64 (omega arith) 3 (omega arith) (λ q. omega arith)

abbrev first : Threads
first = record { memory = clear; phase = λ i. outside }

-- Thread 1 takes the word, and thread 2 fails with the state that it saw before.
abbrev second : Threads
second = record {
  memory = (try_lock_state_word false clear 64 0).0;
  phase =
      set_phase (λ i. outside) 1
        (if (try_lock_state_word false clear 64 0).1 then inside else outside);
}

first-second : Reach 64 first second
first-second = next here (tries 1 0 false refl)

Reach-alone_example : ◌≡◌ {A = ℕ} 1 1 × (is_locked_word second.memory 64 ≡ true)
unfolding try_lock_state_word stateword_u16_cas compare_exchange_value read
Reach-alone_example = Reach-alone 64 first second 1 1 (λ k. refl) first-second refl refl

Reach-never_example : second.phase 1 ≢ rt_fatal
Reach-never_example = Reach-never 64 first second 1 (λ k. refl) first-second

-- A bitmap of two bytes: the second, third, fifth and eighth word, and the first and third of the
-- next eight.
abbrev two_bytes : GcTib
two_bytes = record { tag = 4096; words = 150 ∷ 5 ∷ [] }

for_each_bitmap_word_in_range-for_each_bitmap_word_example :
    (all : List ℕ) × (for_each_bitmap_word two_bytes 1000 ≡ some all)
    × (for_each_bitmap_word_in_range two_bytes 1000 1020 1070
        ≡ some (keep (is_in_range 1020 1070) all))
for_each_bitmap_word_in_range-for_each_bitmap_word_example =
    for_each_bitmap_word_in_range-for_each_bitmap_word two_bytes 1000 1020 1070 (omega arith) refl
      (omega arith) (inl refl)

in_range_of_two_bytes :
    for_each_bitmap_word_in_range two_bytes 1000 1020 1070 ≡ some (1032 ∷ 1056 ∷ 1064 ∷ [])
unfolding for_each_bitmap_word_in_range gctib_shift
in_range_of_two_bytes = refl
