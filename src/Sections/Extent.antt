-- ===== src/Sections/Extent.antt =====
-- The variables that both files fill, and the span of the metadata (Windows/Section.cpp, lines
-- 12-99 and 226-250; Macos/Section.cpp, lines 16-102 and 171-196).
use Prim.Native.Nat.{min, max}
use cjcj_runtime.Base.{ℕ, ◌≤◌, List, [], ◌∷◌, Memᴰ, arith, add64, ap}
use mathlib.Core.List.Memᴰ.{head, tail}

-- One pair of variables for each section. The last two hold the code of the runtime.
pub data Section : Type 0 where
  header sdk_version method_info global_init_func string_pool_dict string_pool : Section
  stack_map gc_tib gc_roots type_template type_info type_fields m_table : Section
  inner_type_extensions outer_type_extensions static_gi_table gc_flags : Section
  reflect_pkg_info reflect_gv reflect_gi type_ext : Section
  runtime_static cj_thread_static : Section

unfoldable pub Section-discrete : Discrete Section
Section-discrete = hlevel

pub record Extent : Type 0 where
  pub start : ℕ
  pub size : ℕ

abbrev pub stop : Extent → ℕ
stop e = add64 e.start e.size

abbrev pub Extents : Type 0
Extents = Section → Extent

-- The variables are zero before the constructor runs.
abbrev pub no_extents : Extents
no_extents s = record { start = 0; size = 0 }

-- The sections between whose ends the metadata lies.
abbrev pub spanned : List Section
spanned =
    sdk_version ∷ method_info ∷ global_init_func ∷ string_pool_dict ∷ string_pool ∷ stack_map
    ∷ gc_tib ∷ gc_roots ∷ type_template ∷ type_info ∷ type_fields ∷ m_table ∷ inner_type_extensions
    ∷ outer_type_extensions ∷ static_gi_table ∷ gc_flags ∷ reflect_pkg_info ∷ reflect_gv
    ∷ reflect_gi ∷ type_ext ∷ []

-- `addrs`, and its least and greatest element.
unfoldable pub addrs : Extents → List Section → List ℕ
addrs x [] = []
addrs x (s ∷ ss) = (x s).start ∷ stop (x s) ∷ addrs x ss

unfoldable pub least : ℕ → List ℕ → ℕ
least a [] = a
least a (b ∷ bs) = least (min a b) bs

unfoldable pub greatest : ℕ → List ℕ → ℕ
greatest a [] = a
greatest a (b ∷ bs) = greatest (max a b) bs

abbrev pub first_addr : Extents → ℕ
first_addr x = (x sdk_version).start

unfoldable pub span_start : Extents → ℕ
unfolding addrs least
span_start x = least (first_addr x) (addrs x spanned)

unfoldable pub span_stop : Extents → ℕ
unfolding addrs greatest
span_stop x = greatest (first_addr x) (addrs x spanned)

least-le : (a : ℕ) (bs : List ℕ) → least a bs ≤ a
unfolding least
least-le a [] = omega arith
least-le a (b ∷ bs) = omega (arith, least-le (min a b) bs)

least-le_mem : (a b : ℕ) (bs : List ℕ) → Memᴰ b bs → least a bs ≤ b
unfolding least
least-le_mem a b [] m = elim m [ ]
least-le_mem a b (c ∷ bs) (head e) = omega (arith, e, least-le (min a c) bs)
least-le_mem a b (c ∷ bs) (tail m) = least-le_mem (min a c) b bs m

le-greatest : (a : ℕ) (bs : List ℕ) → a ≤ greatest a bs
unfolding greatest
le-greatest a [] = omega arith
le-greatest a (b ∷ bs) = omega (arith, le-greatest (max a b) bs)

le-greatest_mem : (a b : ℕ) (bs : List ℕ) → Memᴰ b bs → b ≤ greatest a bs
unfolding greatest
le-greatest_mem a b [] m = elim m [ ]
le-greatest_mem a b (c ∷ bs) (head e) = omega (arith, e, le-greatest (max a c) bs)
le-greatest_mem a b (c ∷ bs) (tail m) = le-greatest_mem (max a c) b bs m

start-mem :
    (x : Extents) (s : Section) (ss : List Section) → Memᴰ s ss → Memᴰ (x s).start (addrs x ss)
unfolding addrs
start-mem x s [] m = elim m [ ]
start-mem x s (t ∷ ss) (head e) = head (ap (λ u. (x u).start) e)
start-mem x s (t ∷ ss) (tail m) = tail (tail (start-mem x s ss m))

stop-mem :
    (x : Extents) (s : Section) (ss : List Section) → Memᴰ s ss → Memᴰ (stop (x s)) (addrs x ss)
unfolding addrs
stop-mem x s [] m = elim m [ ]
stop-mem x s (t ∷ ss) (head e) = tail (head (ap (λ u. stop (x u)) e))
stop-mem x s (t ∷ ss) (tail m) = tail (tail (stop-mem x s ss m))

-- Every spanned section lies between the two ends.
pub span_bounds :
    (x : Extents) (s : Section)
    → Memᴰ s spanned
    → (span_start x ≤ (x s).start)
      × ((x s).start ≤ span_stop x)
      × (span_start x ≤ stop (x s))
      × (stop (x s) ≤ span_stop x)
unfolding span_start span_stop
span_bounds x s m = (
  least-le_mem (first_addr x) (x s).start (addrs x spanned) (start-mem x s spanned m),
  le-greatest_mem (first_addr x) (x s).start (addrs x spanned) (start-mem x s spanned m),
  least-le_mem (first_addr x) (stop (x s)) (addrs x spanned) (stop-mem x s spanned m),
  le-greatest_mem (first_addr x) (stop (x s)) (addrs x spanned) (stop-mem x s spanned m),
)
