-- ===== src/FieldFile.antt =====
-- The package fieldfile: where an uploaded file goes, and whether it may.
pub mod Name
pub mod Key
pub mod Validate
pub mod Resolve
pub mod Tests
