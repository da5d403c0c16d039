-- ===== src/Sections.antt =====
-- How the library finds its own metadata sections when it is loaded:
-- rt0/os/Windows/Section.cpp and rt0/os/Macos/Section.cpp.
pub mod Extent
pub mod Windows
pub mod Macos
