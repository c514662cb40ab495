-- ===== src/Sensitive.antt =====
-- services/provenance/sensitive.py, presidio.py and pii.py (backend/src/docos): values that a document should not
-- show, and the route of api/routes_patches.py that redacts the nodes they are found in.
pub mod Mask
pub mod Scan
pub mod Presidio
pub mod Darker
pub mod Found
pub mod Clean
pub mod Routes
mod Tests
