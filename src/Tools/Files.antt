-- ===== src/Tools/Files.antt =====
-- The file tools of pkg/tools/filesystem.go and pkg/tools/edit.go.
pub mod Disk
pub mod Replace
pub mod Actions
pub mod Confined
pub mod Occurrences
pub mod Edits
pub mod RoundTrip
