-- ===== src/Diff.antt =====
-- services/provenance/diff.py (backend/src/docos): the comparison of two documents.
pub mod Blocks
pub mod Segments
pub mod Sides
mod Tests
