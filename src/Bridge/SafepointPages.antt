-- ===== src/Bridge/SafepointPages.antt =====
-- rt0/mutator/SafepointPageManager.h: the three pages of the safepoint manager. `mmap` and
-- `munmap` are parameters.
use cjcj_runtime.Base.{
  ℕ, ◌-◌, ◌^◌, ◌≡◌, ◌≢◌, refl, Bool, false, ◌==◌, ◌||◌, not, if◌then◌else◌, Option, none, some,
  arith,
}

-- `PROT_READ` and `PROT_NONE`.
pub data Prot : Type 0 where
  prot_read prot_none : Prot

abbrev pub map_failed : ℕ
map_failed = 2 ^ 64 - 1

-- The address space in some state `S`: one private anonymous page is mapped where the system
-- chooses, or unmapped with a result that is 0 on success. `prot_of` is `none` where no page is.
pub record Mapping (S : Type 0) : Type 0 where
  pub mmap : Prot → S → S × ℕ
  pub munmap : ℕ → S → S × ℕ
  pub prot_of : S → ℕ → Option Prot

-- What POSIX says of the two calls: a success of `mmap` maps a page where none was and leaves the
-- others alone, and a page that is mapped can be unmapped.
pub record IsMapping {S : Type 0} (m : Mapping S) : Type 0 where
  pub fresh : (p : Prot) (s : S) → (m.mmap p s).1 ≢ map_failed → m.prot_of s (m.mmap p s).1 ≡ none
  pub mapped :
      (p : Prot) (s : S) (a : ℕ)
      → (m.mmap p s).1 ≢ map_failed
      → m.prot_of (m.mmap p s).0 a ≡ (if a == (m.mmap p s).1 then some p else m.prot_of s a)
  pub unmapped :
      (s : S) (a b : ℕ) (p : Prot)
      → m.prot_of s a ≡ some p
      → ((m.munmap a s).1 ≡ 0)
        × (m.prot_of (m.munmap a s).0 b ≡ (if b == a then none else m.prot_of s b))

pub record SafepointPageManager : Type 0 where
  pub readable_page : ℕ
  pub unreadable_page : ℕ
  pub unreadable_page_for_raw_data : ℕ

module _ {S : Type 0} (m : Mapping S) where
  -- `Init`. `none`: the check fails and ends the process.
  unfoldable pub init : S → S × Option SafepointPageManager
  init s =
      let (s1, a) = m.mmap prot_read s in
      let (s2, b) = m.mmap prot_none s1 in
      let (s3, c) = m.mmap prot_none s2 in
      if a == map_failed || (b == map_failed || c == map_failed) then (s3, none) else (
        s3,
        some (record { readable_page = a; unreadable_page = b; unreadable_page_for_raw_data = c }),
      )

  -- The destructor. The flag says whether a call failed, which is logged.
  unfoldable pub destroy : SafepointPageManager → S → S × Bool
  destroy t s =
      let (s1, a) = m.munmap t.readable_page s in
      let (s2, b) = m.munmap t.unreadable_page s1 in
      let (s3, c) = m.munmap t.unreadable_page_for_raw_data s2 in
      (s3, not (a == 0) || (not (b == 0) || not (c == 0)))

  -- The state with the pages of a manager: `t` has three different pages, where `s` had none, and
  -- `u` is `s` with them.
  pub record IsReady (s u : S) (t : SafepointPageManager) : Type 0 where
    pub first_second : t.readable_page ≢ t.unreadable_page
    pub first_third : t.readable_page ≢ t.unreadable_page_for_raw_data
    pub second_third : t.unreadable_page ≢ t.unreadable_page_for_raw_data
    pub fresh_first : m.prot_of s t.readable_page ≡ none
    pub fresh_second : m.prot_of s t.unreadable_page ≡ none
    pub fresh_third : m.prot_of s t.unreadable_page_for_raw_data ≡ none
    pub pages :
        (a : ℕ)
        → m.prot_of u a ≡ (
            if a == t.unreadable_page_for_raw_data
            then some prot_none
            else if a == t.unreadable_page
            then some prot_none
            else if a == t.readable_page
            then some prot_read
            else m.prot_of s a)

  module _ (law : IsMapping m) where
    -- The three calls of `mmap`, when none of them fails.
    three-IsReady :
        (s u v w : S) (a b c : ℕ)
        → m.mmap prot_read s ≡ (u, a)
        → m.mmap prot_none u ≡ (v, b)
        → m.mmap prot_none v ≡ (w, c)
        → a ≢ map_failed
        → b ≢ map_failed
        → c ≢ map_failed
        → IsReady s w
            (record { readable_page = a; unreadable_page = b; unreadable_page_for_raw_data = c })
    three-IsReady s u v w a b c e f g ha hb hc =
        let fa : m.prot_of s a ≡ none = ground (arith, law.fresh prot_read s) in
        let ma : (x : ℕ) → m.prot_of u x ≡ (if x == a then some prot_read else m.prot_of s x) =
          λ x. ground (arith, law.mapped prot_read s x) in
        let fb : m.prot_of u b ≡ none = ground (arith, law.fresh prot_none u) in
        let mb : (x : ℕ) → m.prot_of v x ≡ (if x == b then some prot_none else m.prot_of u x) =
          λ x. ground (arith, law.mapped prot_none u x) in
        let fc : m.prot_of v c ≡ none = ground (arith, law.fresh prot_none v) in
        let mc : (x : ℕ) → m.prot_of w x ≡ (if x == c then some prot_none else m.prot_of v x) =
          λ x. ground (arith, law.mapped prot_none v x) in
        record {
          first_second = ground (arith, fb, ma b);
          first_third = ground (arith, fc, ma c, mb c);
          second_third = ground (arith, fc, mb c);
          fresh_first = fa;
          fresh_second = ground (arith, fb, ma b);
          fresh_third = ground (arith, fc, ma c, mb c);
          pages = λ x. ground (arith, ma x, mb x, mc x);
        }

    -- `Init` as its three calls, when the check passes.
    abbrev one : S → S × ℕ
    one s = m.mmap prot_read s

    abbrev two : S → S × ℕ
    two s = m.mmap prot_none (one s).0

    abbrev three : S → S × ℕ
    three s = m.mmap prot_none (two s).0

    init-some :
        (s : S) (t : SafepointPageManager)
        → (init s).1 ≡ some t
        → (t.readable_page ≡ (one s).1)
          × (t.unreadable_page ≡ (two s).1)
          × (t.unreadable_page_for_raw_data ≡ (three s).1)
          × ((init s).0 ≡ (three s).0)
          × ((one s).1 ≢ map_failed)
          × ((two s).1 ≢ map_failed)
          × ((three s).1 ≢ map_failed)
    unfolding init
    init-some s t e = ground arith

    init-IsReady : (s : S) (t : SafepointPageManager) → (init s).1 ≡ some t → IsReady s (init s).0 t
    init-IsReady s t e =
        let (a, b, c, u, ha, hb, hc) = init-some s t e in
        let ready =
          three-IsReady s (one s).0 (two s).0 (three s).0 (one s).1 (two s).1 (three s).1 refl refl
            refl ha hb hc in
        rw (a, b, c, u) ready

    destroy-IsReady :
        (s u : S) (t : SafepointPageManager)
        → IsReady s u t
        → ((destroy t u).1 ≡ false) × ((a : ℕ) → m.prot_of (destroy t u).0 a ≡ m.prot_of s a)
    unfolding destroy
    destroy-IsReady s u t r =
        let v = (m.munmap t.readable_page u).0 in
        let w = (m.munmap t.unreadable_page v).0 in
        let x : m.prot_of u t.readable_page ≡ some prot_read =
          ground (arith, r.pages t.readable_page) in
        let ux = λ (a : ℕ). law.unmapped u t.readable_page a prot_read x in
        let y : m.prot_of v t.unreadable_page ≡ some prot_none =
          ground (arith, ux t.unreadable_page, r.pages t.unreadable_page) in
        let uy = λ (a : ℕ). law.unmapped v t.unreadable_page a prot_none y in
        let z : m.prot_of w t.unreadable_page_for_raw_data ≡ some prot_none = ground (
          arith,
          ux t.unreadable_page_for_raw_data,
          uy t.unreadable_page_for_raw_data,
          r.pages t.unreadable_page_for_raw_data,
        ) in
        let uz = λ (a : ℕ). law.unmapped w t.unreadable_page_for_raw_data a prot_none z in
        (
          ground (arith, (ux 0).0, (uy 0).0, (uz 0).0),
          λ a. ground (arith, (ux a).1, (uy a).1, (uz a).1, r.pages a),
        )

    -- If `Init` passes its check, it has mapped three different pages where none was, the first
    -- to be read and the others not to be touched, and nothing else has changed; and the destructor
    -- then fails at no page and leaves the address space as it was before `Init`.
    pub init-destroy :
        (s : S) (t : SafepointPageManager)
        → (init s).1 ≡ some t
        → IsReady s (init s).0 t
          × ((destroy t (init s).0).1 ≡ false)
          × ((a : ℕ) → m.prot_of (destroy t (init s).0).0 a ≡ m.prot_of s a)
    init-destroy s t e =
        let r = init-IsReady s t e in let (a, b) = destroy-IsReady s (init s).0 t r in (r, a, b)
