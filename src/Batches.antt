-- ===== src/Batches.antt =====
-- Routes of api/routes_patches.py (backend/src/docos) that commit operations the code derives itself,
-- and the seal of a document.
pub mod Commit
pub mod Remediate
pub mod Follows
pub mod Achieved
pub mod Tags
pub mod Complete
pub mod Seal
pub mod Sealed
mod Tests
