-- ===== src/Windows/Loader/Symbols.antt =====
-- Which symbol an address is given.
use Prim.Native.String.{String}
use mathlib.Core.List.Memᴰ.{head, tail}
use text.Mathlib.Text.{◌==◌ as str_eq}
use cjcj_runtime.Base.{
  ℕ, zero, suc, ◌+◌, ◌≤◌, List, [], ◌∷◌, Option, some, ◌≡◌, ◌⊎◌, inl, inr, refl, false, arith,
  get_elem?, Memᴰ, ltb, leb, ◌||◌, Bool-cases, add64, if◌then◌else◌, ◌==◌, not, ==_iff, ap, Bool,
  ◌&&◌,
}
use cjcj_runtime.Windows.Loader.{
  ExportImage, Candidate, System, BinaryInfo, search_functions, search_names, find_candidate,
  symbol_of, get_symbol_name, get_binary_file_path, is_valid_address, get_binary_info_from_address,
  no_candidate,
}

-- The candidate that the loop ends with: its own, or the one it started with.
abbrev IsFrom : ℕ → ℕ → ℕ → List ℕ → Candidate → Candidate → Type 0
IsFrom base address i fs c d =
    (d ≡ c)
    ⊎ ((j f : ℕ) × (get_elem? fs j ≡ some f)
        × (d ≡ record { addr = add64 base f; index = some (i + j) })
        × (add64 base f ≤ address))

-- No function up to the address is nearer to it than the candidate.
abbrev pub IsNearest : ℕ → ℕ → List ℕ → ℕ → Type 0
IsNearest base address fs a =
    (j f : ℕ) → get_elem? fs j ≡ some f → add64 base f ≤ address → add64 base f ≤ a

module _ (base address : ℕ) where
  abbrev passes : ℕ → Candidate → Bool
  passes g c = ltb address (add64 base g) || leb (add64 base g) c.addr

  abbrev taken : ℕ → ℕ → Candidate
  taken i g = record { addr = add64 base g; index = some i }

  grows :
      (i : ℕ) (fs : List ℕ) (c : Candidate) → c.addr ≤ (search_functions base address i fs c).addr
  unfolding search_functions
  grows i [] c = omega arith
  grows i (g ∷ fs) c = ground (arith, grows (suc i) fs c, grows (suc i) fs (taken i g))

  nearest :
      (i : ℕ) (fs : List ℕ) (c : Candidate)
      → IsNearest base address fs (search_functions base address i fs c).addr
  unfolding search_functions
  nearest i [] c j f e le = absurd (cc)
  nearest i (g ∷ fs) c zero f e le =
      ground (arith, grows (suc i) fs c, grows (suc i) fs (taken i g))
  nearest i (g ∷ fs) c (suc j) f e le =
      ground (arith, nearest (suc i) fs c j f e le, nearest (suc i) fs (taken i g) j f e le)

  later :
      (i g : ℕ) (fs : List ℕ) (c d : Candidate)
      → IsFrom base address (suc i) fs c d
      → IsFrom base address i (g ∷ fs) c d
  later i g fs c d (inl e) = inl e
  later i g fs c d (inr (j, f, e, r, le)) =
      let next : suc i + j ≡ i + suc j = omega arith in inr (suc j, f, e, rw next at r, le)

  from :
      (i : ℕ) (fs : List ℕ) (c : Candidate)
      → IsFrom base address i fs c (search_functions base address i fs c)
  unfolding search_functions
  from i [] c = inl refl
  from i (g ∷ fs) c = elim (Bool-cases (passes g c)) [
    | inl skip ↦ rw skip (later i g fs c _ (from (suc i) fs c))
    | inr take ↦ rw take (chosen take (from (suc i) fs (taken i g)))
  ]
    where
      chosen :
          passes g c ≡ false
          → IsFrom base address
              (suc i)
              fs
              (taken i g)
              (search_functions base address (suc i) fs (taken i g))
          → IsFrom base address i (g ∷ fs) c (search_functions base address (suc i) fs (taken i g))
      chosen take (inl e) =
          let this : i + 0 ≡ i = omega arith in inr (0, g, refl, rw this e, ground arith)
      chosen take (inr (j, f, e, r, le)) =
          let next : suc i + j ≡ i + suc j = omega arith in inr (suc j, f, e, rw next at r, le)

search_names-Mem :
    (index : ℕ) (ns : List (ℕ × String)) (name : String)
    → search_names index ns ≡ some name
    → Memᴰ (index, name) ns
unfolding search_names
search_names-Mem index [] name e = absurd (cc)
search_names-Mem index ((o, n) ∷ ns) name e = elim (Bool-cases (o == index)) [
  | inl same ↦
      let hit : ◌≡◌ {A = Option String} (some n) (some name) = rw (same, search_names) at e in
      head (cc (hit, (==_iff o index).0 same))
  | inr other ↦
      let miss : search_names index ns ≡ some name = rw (other, search_names) at e in
      tail (search_names-Mem index ns name miss)
]

-- The symbol of an address is a name of an exported function that starts at or before the address
-- and after which, up to the address, no other exported function starts.
pub symbol_of-IsNearest :
    (m : ExportImage) (address : ℕ) (name : String)
    → symbol_of m address ≡ some name
    → (j f : ℕ) × (get_elem? m.functions j ≡ some f)
      × (add64 m.module_handler f ≤ address)
      × IsNearest m.module_handler address m.functions (add64 m.module_handler f)
      × Memᴰ (j, name) m.names
unfolding symbol_of find_candidate
symbol_of-IsNearest m address name e =
    elim (from m.module_handler address 0 m.functions no_candidate) [
      | inl none_found ↦ absurd (ground arith)
      | inr (j, f, g, r, le) ↦ (
        j,
        f,
        g,
        le,
        λ k h a b. omega (
          arith,
          nearest m.module_handler address 0 m.functions no_candidate k h a b,
          ap (λ c. c.addr) r,
        ),
        search_names-Mem j m.names name (ground arith),
      )
    ]

-- The call reports success exactly if the address is one of the process and the file then has a
-- name. The search for the symbol leaves the name of the file alone, and for any other address the
-- call stores nothing.
pub get_binary_info_from_address_lem :
    (s : System) (address : ℕ) (info : BinaryInfo)
    → let known = not (address == 0) && is_valid_address s address in
      let (after, result) = get_binary_info_from_address s address info in
      let path = (get_binary_file_path s address info).file_path_name in
      (result ≡ (if known && not (str_eq path "") then 1 else 0))
      × (after.file_path_name ≡ (if known then path else info.file_path_name))
      × (after.symbol_name
          ≡ (if known then (get_symbol_name s address info).symbol_name else info.symbol_name))
unfolding get_binary_info_from_address get_symbol_name get_binary_file_path
get_binary_info_from_address_lem s address info = ground arith
