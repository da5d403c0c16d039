-- ===== src/Windows/Manager/Refresh.antt =====
-- What the two ways to fill the set establish.
use Prim.Native.String.{String}
use mathlib.Core.List.Memᴰ.{head, tail}
use text.Mathlib.Text.{◌==◌ as str_eq}
use text.Mathlib.TextEquality.{eq_iff}
use cjcj_runtime.Base.{
  ℕ, zero, suc, ◌<◌, ◌∙◌, ap, List, [], ◌∷◌, Option, none, some, ◌≡◌, ◌≢◌, ◌⊎◌, inl, inr, refl,
  true, false, arith, Memᴰ, length, Option-cases, Bool-cases, find_first, find_first-Mem,
  find_first-none,
}
use cjcj_runtime.Windows.Module.{WinModule}
use cjcj_runtime.Windows.Manager.{
  WinModuleManager, Image, same_name, is_native, emplace, to_win_module, init_entry, module_info,
  read_win_module_at_init, read_module_info, written, read_win_module_at_running,
}

abbrev pub IsRegistered : WinModuleManager → String → Type 0
IsRegistered g name = (n : WinModule) × Memᴰ n g.win_modules × (n.module_name ≡ name)

abbrev pub DistinctNames : WinModuleManager → Type 0
DistinctNames g =
    (m n : WinModule)
    → Memᴰ m g.win_modules
    → Memᴰ n g.win_modules
    → m.module_name ≡ n.module_name
    → m ≡ n

abbrev pub Extends : WinModuleManager → WinModuleManager → Type 0
Extends g h = (n : WinModule) → Memᴰ n g.win_modules → Memᴰ n h.win_modules

-- An insertion either finds a module of that name and changes nothing, or adds the new one.
emplace-cases :
    (m : WinModule) (g : WinModuleManager)
    → (IsRegistered g m.module_name × (emplace m g ≡ g))
      ⊎ (((n : WinModule) → Memᴰ n g.win_modules → n.module_name ≢ m.module_name)
          × (emplace m g ≡ record { win_modules = m ∷ g.win_modules }))
unfolding emplace same_name
emplace-cases m g = elim (Option-cases (find_first (λ n. same_name n m) g.win_modules)) [
  | inl e ↦ inr (
    λ n i q. cc (find_first-none _ g.win_modules e n i, (eq_iff n.module_name m.module_name).1 q),
    ground arith,
  )
  | inr (n, e) ↦
      let hit = find_first-Mem _ g.win_modules n e in
      inl ((n, hit.0, (eq_iff n.module_name m.module_name).0 hit.1), ground arith)
]

emplace-DistinctNames :
    (m : WinModule) (g : WinModuleManager) → DistinctNames g → DistinctNames (emplace m g)
emplace-DistinctNames m g d = elim (emplace-cases m g) [
  | inl (_, same) ↦ rw same d
  | inr (fresh, added) ↦ rw added (cases fresh)
]
  where
    cases :
        ((n : WinModule) → Memᴰ n g.win_modules → n.module_name ≢ m.module_name)
        → DistinctNames (record { win_modules = m ∷ g.win_modules })
    cases fresh a b (head p) (head q) e = cc
    cases fresh a b (head p) (tail j) e = absurd (fresh b j (cc))
    cases fresh a b (tail i) (head q) e = absurd (fresh a i (cc))
    cases fresh a b (tail i) (tail j) e = d a b i j e

emplace_registered :
    (m : WinModule) (g : WinModuleManager) → IsRegistered g m.module_name → emplace m g ≡ g
emplace_registered m g (n, i, e) = elim (emplace-cases m g) [
  | inl (_, same) ↦ same
  | inr (fresh, _) ↦ absurd (fresh n i e)
]

init_entry-DistinctNames :
    (e : Option Image) (g : WinModuleManager) → DistinctNames g → DistinctNames (init_entry e g)
unfolding init_entry
init_entry-DistinctNames none g d = d
init_entry-DistinctNames (some i) g d = elim (Bool-cases (str_eq i.base_name "")) [
  | inl t ↦ rw (t, init_entry) d
  | inr f ↦ elim (Bool-cases (is_native i.base_name)) [
    | inl u ↦ rw (f, u) d
    | inr v ↦ rw (f, v) (emplace-DistinctNames _ g d)
  ]
]

module_info-cases :
    (i : Image) (g : WinModuleManager)
    → ((is_native i.base_name ≡ true) × (module_info i g ≡ g))
      ⊎ ((is_native i.base_name ≡ false)
          × (module_info i g ≡ emplace (to_win_module i.full_name i) g))
unfolding module_info
module_info-cases i g = ground arith

-- Filling the set at start-up keeps the names of its modules distinct.
pub read_win_module_at_init-DistinctNames :
    (es : List (Option Image)) (g : WinModuleManager)
    → DistinctNames g
    → DistinctNames (read_win_module_at_init es g)
unfolding read_win_module_at_init
read_win_module_at_init-DistinctNames [] g d = d
read_win_module_at_init-DistinctNames (e ∷ es) g d =
    read_win_module_at_init-DistinctNames es (init_entry e g) (init_entry-DistinctNames e g d)

-- What a refresh promises of the set before and after it.
pub record IsRefresh (is : List Image) (g h : WinModuleManager) : Type 0 where
  pub kept : Extends g h
  pub distinct : DistinctNames g → DistinctNames h
  pub registered :
      (i : Image) → Memᴰ i is → is_native i.base_name ≡ false → IsRegistered h i.full_name

module_info_registered :
    (i : Image) (g : WinModuleManager) → IsRegistered g i.full_name → module_info i g ≡ g
module_info_registered i g o = elim (module_info-cases i g) [
  | inl (_, e) ↦ e
  | inr (_, e) ↦ e ∙ emplace_registered (to_win_module i.full_name i) g o
]

read_registered :
    (is : List Image) (g : WinModuleManager)
    → ((i : Image) → Memᴰ i is → IsRegistered g i.full_name)
    → read_module_info (written (length is) is) g ≡ some g
unfolding read_module_info written
read_registered [] g old = refl
read_registered (i ∷ is) g old =
    ap (read_module_info (written (length is) is)) (module_info_registered i g (old i (head refl)))
    ∙ read_registered is g (λ j m. old j (tail m))

-- A refresh goes by the full path alone: where every path is registered already it changes
-- nothing, whatever the addresses that the modules are loaded at now.
pub read_win_module_at_running-stale :
    (is : List Image) (g : WinModuleManager)
    → ((i : Image) → Memᴰ i is → IsRegistered g i.full_name)
    → read_win_module_at_running is is g ≡ some g
unfolding read_win_module_at_running
read_win_module_at_running-stale is g old = ground (arith, read_registered is g old)

read_short :
    (n : ℕ) (is : List Image) (g : WinModuleManager)
    → length is < n
    → read_module_info (written n is) g ≡ none
unfolding read_module_info written
read_short zero is g h = absurd (omega arith)
read_short (suc n) [] g h = refl
read_short (suc n) (i ∷ is) g h = read_short n is (module_info i g) (omega arith)

-- With more than 50 modules, of which fewer are left at the second call, the refresh goes on to
-- use a handle that was never written.
pub read_win_module_at_running-unwritten :
    (first second : List Image) (g : WinModuleManager)
    → 50 < length first
    → length second < length first
    → read_win_module_at_running first second g ≡ none
unfolding read_win_module_at_running
read_win_module_at_running-unwritten first second g many fewer =
    ground (arith, read_short (length first) second g)
