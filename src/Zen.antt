-- ===== src/Zen.antt =====
-- src/zen.rs: the parts of the header of a package in the zen format.
pub mod Versioning
pub mod PackageIndex
pub mod Exports
pub mod Dependencies
pub mod Summary
