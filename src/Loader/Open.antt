-- ===== src/Loader/Open.antt =====
-- rt0/os/Linux/Loader.cpp, lines 13-32, and rt0/os/Windows/Loader.cpp, lines 35-48: a library that is
-- loaded and unloaded.
use Prim.Native.String.{String}
use cjcj_runtime.Base.{ℕ, ◌<◌, ◌≡◌, ◌≢◌, ◌==◌, Option, none, some, arith, refl, sym, ◌∙◌, false}
use cjcj_runtime.Loader.{
  Linker, IsLinker, Os, linux, windows, load_binary_file, unload_binary_file, count_more,
}

same_count : (f g : ℕ → ℕ) (h k : ℕ) → count_more f h k ≡ count_more g h k → f k ≡ g k
same_count f g h k e = ground arith

module _ {S : Type 0} (l : Linker S) (law : IsLinker l) where
  -- Over a dynamic loader that counts its handles as documented: on both systems a library that
  -- `LoadBinaryFile` has loaded is unloaded by `UnloadBinaryFile`: the
  -- result is 0, and every library is then open as often as before.
  pub load_binary_file-unload_binary_file :
      (os : Os) (path : Option String) (s : S) (k : ℕ)
      → (load_binary_file l os path s).0 ≢ 0
      → ((unload_binary_file l os
            (load_binary_file l os path s).0
            (load_binary_file l os path s).1).0
          ≡ 0)
        × (l.open_count
              (unload_binary_file l os
                (load_binary_file l os path s).0
                (load_binary_file l os path s).1).1
              k
            ≡ l.open_count s k)
  unfolding load_binary_file unload_binary_file
  load_binary_file-unload_binary_file linux none s k h = absurd (h refl)
  load_binary_file-unload_binary_file linux (some path) s k h =
      let handler = (l.dlopen path s).0 in
      let t = (l.dlopen path s).1 in
      let opened : 0 < l.open_count t handler =
        ground (arith, law.dlopen_counts path s handler h) in
      let (zero_result, counts) = law.dlclose_counts handler t k opened in
      let before = law.dlopen_counts path s k h in
      let some_handler : (handler == 0) ≡ false = ground arith in
      rw some_handler (
        zero_result,
        same_count (l.open_count (l.dlclose handler t).1) (l.open_count s) handler k
            (sym counts ∙ before),
      )
  load_binary_file-unload_binary_file windows path s k h =
      let handler = (l.load_library path s).0 in
      let t = (l.load_library path s).1 in
      let opened : 0 < l.open_count t handler =
        ground (arith, law.load_library_counts path s handler h) in
      let (result, counts) = law.free_library_counts handler t k opened in
      let before = law.load_library_counts path s k h in
      let some_handler : (handler == 0) ≡ false = ground arith in
      let freed : ((l.free_library handler t).0 == 0) ≡ false = ground arith in
      rw (some_handler, freed)
        (
          refl,
          same_count (l.open_count (l.free_library handler t).1) (l.open_count s) handler k
              (sym counts ∙ before),
        )
