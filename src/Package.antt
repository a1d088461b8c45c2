-- ===== src/Package.antt =====
-- scripts/package_source.py: the export of the tracked source as a deterministic ZIP archive.
pub mod Failure
pub mod Paths
pub mod Index
pub mod Manifest
pub mod Source
pub mod Archive
pub mod Checksums
