-- ===== src/GcTib.antt =====
-- src/rt.objectmodel/GCTib.cj on targets of 64 bits, with the shifts of rt0/GCTibShift.cpp: the bitmap
-- of a type, which has a bit for each word of an object that is a reference. A call of the visitor
-- is its address in a list. Addresses of objects are far below 2 ^ 64, so no sum is cut off.
pub mod Bits
pub mod Shift
pub mod Range
use cjcj_runtime.Base.{
  ℕ, zero, suc, ◌+◌, ◌-◌, ◌*◌, ◌/◌, ◌%◌, ◌^◌, Bool, true, false, ◌==◌, leb, if◌then◌else◌, Option,
  none, some, List, [], ◌∷◌, ◌++◌,
}

-- `sizeOf<RefField>()`.
abbrev pub ref_size : ℕ
ref_size = 8

-- `CJRT_GCTibShiftUIntNative` and `CJRT_GCTibShiftUInt8`, for a count below the width of what is
-- shifted, which is an `int` for the latter. Another count is undefined, `none` below.
unfoldable pub gctib_shift : ℕ → ℕ → ℕ
gctib_shift value count = value / 2 ^ count

-- `GCTibVisit` for a bit that is set, before what the rest of the loop visits.
abbrev pub visited : ℕ → ℕ → Option (List ℕ) → Option (List ℕ)
visited bits address none = none
visited bits address (some rest) = some (if bits % 2 == 1 then address ∷ rest else rest)

-- The loop over the bits of a number. `none` is out of fuel.
unfoldable pub bits_loop : ℕ → ℕ → ℕ → Option (List ℕ)
bits_loop zero bits address = none
bits_loop (suc n) bits address = elim (bits == 0) [
  | true ↦ some []
  | false ↦ visited bits address (bits_loop n (bits / 2) (address + ref_size))
]

-- The same with the end of the range: whether the loop has returned at it.
abbrev pub visited_in_range : ℕ → ℕ → Option (List ℕ × Bool) → Option (List ℕ × Bool)
visited_in_range bits address none = none
visited_in_range bits address (some (rest, b)) =
    some (if bits % 2 == 1 then address ∷ rest else rest, b)

unfoldable pub range_loop : ℕ → ℕ → ℕ → ℕ → Option (List ℕ × Bool)
range_loop zero bits address stop = none
range_loop (suc n) bits address stop = elim (bits == 0) [
  | true ↦ some ([], false)
  | false ↦ elim (leb stop address) [
    | true ↦ some ([], true)
    | false ↦ visited_in_range bits address (range_loop n (bits / 2) (address + ref_size) stop)
  ]
]

-- `GCTibRefIndex` and `GCTibMapIndex`.
abbrev pub ref_index : ℕ → ℕ
ref_index bytes = bytes / 8

abbrev pub map_index : ℕ → ℕ
map_index bytes = bytes / 64

-- A bitmap in the tag itself, behind its highest bit.
unfoldable pub short_for_each : ℕ → ℕ → Option (List ℕ)
unfolding bits_loop
short_for_each tag address = bits_loop 65 (tag % 2 ^ 63) address

abbrev pub forget_end : Option (List ℕ × Bool) → Option (List ℕ)
forget_end none = none
forget_end (some (l, b)) = some l

unfoldable pub short_for_each_in_range : ℕ → ℕ → ℕ → ℕ → Option (List ℕ)
unfolding range_loop gctib_shift
short_for_each_in_range tag base start stop =
    let count = ref_index (start - base) in
    if leb 64 count
    then none
    else forget_end (range_loop 65 (gctib_shift (tag % 2 ^ 63) count) start stop)

-- A bitmap of bytes.
abbrev pub followed_by : Option (List ℕ) → Option (List ℕ) → Option (List ℕ)
followed_by none b = none
followed_by (some l) none = none
followed_by (some l) (some r) = some (l ++ r)

unfoldable pub std_for_each : List ℕ → ℕ → Option (List ℕ)
unfolding bits_loop
std_for_each [] base = some []
std_for_each (w ∷ words) base =
    followed_by (bits_loop 9 w base) (std_for_each words (base + ref_size * 8))

-- A byte, and the bytes behind it unless the loop has returned.
abbrev pub unless_ended : Option (List ℕ × Bool) → Option (List ℕ) → Option (List ℕ)
unless_ended none rest = none
unless_ended (some (l, true)) rest = some l
unless_ended (some (l, false)) rest = followed_by (some l) rest

-- The bytes behind the first.
unfoldable pub std_rest : List ℕ → ℕ → ℕ → Option (List ℕ)
unfolding range_loop
std_rest [] base stop = some []
std_rest (w ∷ words) base stop =
    unless_ended (range_loop 9 w base stop) (std_rest words (base + ref_size * 8) stop)

-- The byte in which the range starts.
unfoldable pub std_first : ℕ → ℕ → ℕ → ℕ → Option (List ℕ × Bool)
unfolding range_loop gctib_shift
std_first w base start stop =
    let count = ref_index (start - base) in
    if w == 0
    then range_loop 9 w base stop
    else if leb 32 count
    then none
    else range_loop 9 (gctib_shift w count) start stop

-- The bytes from `index` on.
abbrev pub from_index : List ℕ → ℕ → List ℕ
from_index [] i = []
from_index (w ∷ words) zero = w ∷ words
from_index (w ∷ words) (suc i) = from_index words i

unfoldable pub std_from : List ℕ → ℕ → ℕ → ℕ → Option (List ℕ)
unfolding std_first std_rest
std_from [] base start stop = some []
std_from (w ∷ words) base start stop =
    unless_ended (std_first w base start stop) (std_rest words (base + ref_size * 8) stop)

unfoldable pub std_for_each_in_range : List ℕ → ℕ → ℕ → ℕ → Option (List ℕ)
unfolding std_from
std_for_each_in_range words content start stop =
    let index = map_index (start - content) in
    std_from (from_index words index) (index * (ref_size * 8) + content) start stop

-- The tag, and the bytes behind it where it is their address.
pub record GcTib : Type 0 where
  pub tag : ℕ
  pub words : List ℕ

abbrev pub is_gctib_word : GcTib → Bool
is_gctib_word g = leb (2 ^ 63) g.tag

unfoldable pub for_each_bitmap_word : GcTib → ℕ → Option (List ℕ)
unfolding short_for_each std_for_each
for_each_bitmap_word g content =
    if is_gctib_word g then short_for_each g.tag content else std_for_each g.words content

abbrev pub align_range_start : ℕ → ℕ
align_range_start address = (address + 7) / 8 * 8

unfoldable pub for_each_bitmap_word_in_range : GcTib → ℕ → ℕ → ℕ → Option (List ℕ)
unfolding short_for_each_in_range std_for_each_in_range
for_each_bitmap_word_in_range g content start stop =
    let range_start = align_range_start start in
    if leb stop range_start
    then some []
    else if is_gctib_word g
    then short_for_each_in_range g.tag content range_start stop
    else std_for_each_in_range g.words content range_start stop
