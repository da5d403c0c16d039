-- ===== src/Windows/Manager/Lookup.antt =====
-- Look-up by address.
use cjcj_runtime.Base.{
  ℕ, List, Option, none, some, ◌≡◌, refl, true, false, Memᴰ, find_first, find_first-Mem,
  find_first-none,
}
use cjcj_runtime.Windows.Module.{WinModule, is_in_module}
use cjcj_runtime.Windows.Manager.{WinModuleManager, get_win_module_by_pc}

-- The module that holds an address, or no module holds it.
abbrev pub Holds : List WinModule → ℕ → Option WinModule → Type 0
Holds ms pc (some m) = Memᴰ m ms × (is_in_module m pc ≡ true)
Holds ms pc none = (m : WinModule) → Memᴰ m ms → is_in_module m pc ≡ false

-- The look-up by address returns a module of the set that holds the address, and nothing only if no
-- module of the set holds it.
pub get_win_module_by_pc-Holds :
    (g : WinModuleManager) (pc : ℕ) → Holds g.win_modules pc (get_win_module_by_pc g pc)
unfolding get_win_module_by_pc
get_win_module_by_pc-Holds g pc =
    (elim (find_first (λ m. is_in_module m pc) g.win_modules)
        as (λ r. find_first (λ m. is_in_module m pc) g.win_modules ≡ r → Holds g.win_modules pc r) [
          | some m ↦ find_first-Mem _ g.win_modules m
          | none ↦ find_first-none _ g.win_modules
        ])
      refl

-- No address lies in two modules.
abbrev pub AreDisjoint : List WinModule → Type 0
AreDisjoint ms =
    (m n : WinModule) (pc : ℕ)
    → Memᴰ m ms
    → Memᴰ n ms
    → is_in_module m pc ≡ true
    → is_in_module n pc ≡ true
    → m ≡ n

-- Where no address lies in two modules, the order in which the set iterates does not matter: two
-- managers with the same modules give the same answer.
pub get_win_module_by_pc-order :
    (g h : WinModuleManager) (pc : ℕ)
    → AreDisjoint g.win_modules
    → ((m : WinModule) → Memᴰ m g.win_modules → Memᴰ m h.win_modules)
    → ((m : WinModule) → Memᴰ m h.win_modules → Memᴰ m g.win_modules)
    → get_win_module_by_pc g pc ≡ get_win_module_by_pc h pc
get_win_module_by_pc-order g h pc disjoint to from =
    agree (get_win_module_by_pc g pc) (get_win_module_by_pc h pc) (get_win_module_by_pc-Holds g pc)
      (get_win_module_by_pc-Holds h pc)
  where
    agree : (a b : Option WinModule) → Holds g.win_modules pc a → Holds h.win_modules pc b → a ≡ b
    agree none none p q = refl
    agree none (some n) p q = cc (p n (from n q.0))
    agree (some m) none p q = cc (q m (to m p.0))
    agree (some m) (some n) p q = cc (disjoint m n pc p.0 (from n q.0) p.1 q.1)
