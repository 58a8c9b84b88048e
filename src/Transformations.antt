-- ===== src/Transformations.antt =====
-- apps/api/src/transformations: the mapping of raw records to normalized ones.
pub mod Errors
pub mod Mapping
pub mod Record
