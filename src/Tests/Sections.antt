-- ===== src/Tests/Sections.antt =====
-- Runs of the two Section.cpp files: a Windows image with a table of types alone, and the loader
-- of macOS with two images.
use Prim.Native.String.{String}
use mathlib.Core.List.Memᴰ.{head, tail}
use cjcj_runtime.Base.{
  ℕ, ◌+◌, ◌-◌, ◌%◌, ◌^◌, ◌<◌, ◌≤◌, ◌≡◌, refl, List, [], ◌∷◌, some, true, arith, Memᴰ,
}
use cjcj_runtime.Sections.Extent.{
  Section-discrete, Extents, spanned, sdk_version, type_info, span_start, span_stop, span_bounds,
}
use cjcj_runtime.Sections.Windows
use cjcj_runtime.Sections.Windows.{Image, codes, section_of}
use cjcj_runtime.Sections.Windows.Metadata.{init_data-covers}
use cjcj_runtime.Sections.Macos
use cjcj_runtime.Sections.Macos.{MachImage, IsFirst, section_information, init_data-IsFirst}

abbrev extents : Extents
extents s = record { start = 4096; size = 16 }

span_bounds_example :
    (span_start extents ≤ 4096)
    × (4096 ≤ span_stop extents)
    × (span_start extents ≤ 4112)
    × (4112 ≤ span_stop extents)
span_bounds_example = span_bounds extents sdk_version (head refl)

abbrev image : Image
image = record {
  module_handle = 65536;
  dos_magic_ok = true;
  nt_signature_ok = true;
  headers = record { name = codes ".cjsdkv"; virtual_address = 4096; virtual_size = 32 } ∷ [];
}

abbrev found : Extents
found = (Windows.init_data (some image)).0

small : span_stop found - span_start found < 2 ^ 32
unfolding span_stop span_start Windows.init_data Windows.visit_all Windows.visit section_of
    Windows.set_extent Section-discrete
small = omega arith

cjsdkv : section_of (codes ".cjsdkv") ≡ some sdk_version
unfolding section_of
cjsdkv = refl

init_data-covers_example :
    (span_start found ≤ 69632)
    × (69632 ≤ span_start found + (Windows.init_data (some image)).1)
    × (span_start found ≤ 69664)
    × (69664 ≤ span_start found + (Windows.init_data (some image)).1)
init_data-covers_example =
    init_data-covers image refl refl [] []
      (record { name = codes ".cjsdkv"; virtual_address = 4096; virtual_size = 32 }) sdk_version
      refl cjsdkv tt (λ e. cc) (λ e. cc) (λ e. cc) small

absent : (found type_info).start ≡ 0
unfolding Windows.init_data Windows.visit_all Windows.visit section_of Windows.set_extent
    Section-discrete
absent = refl

type_info-spanned : Memᴰ type_info spanned
type_info-spanned = tail (tail (tail (tail (tail (tail (tail (tail (tail (head refl)))))))))

abbrev mach_image : String → ℕ → MachImage
mach_image name at = record {
  image_name = name;
  get_section_data = λ segment section. record { start = at; size = 16 };
}

abbrev images : List MachImage
images = mach_image "a.dylib" 4096 ∷ mach_image "b.dylib" 8192 ∷ []

init_data-IsFirst_example :
    (k : ℕ) × (m : MachImage) × IsFirst "b.dylib" 0 images k m
    × (Macos.init_data "b.dylib" images
        ≡ some (
          section_information m,
          (span_stop (section_information m) - span_start (section_information m)) % 2 ^ 32,
        ))
init_data-IsFirst_example =
    init_data-IsFirst "b.dylib" images (mach_image "b.dylib" 8192) (tail (head refl)) refl
