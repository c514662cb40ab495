-- ===== src/Replace.antt =====
-- services/docengine/find_replace.py and the route `find_replace` of api/routes_patches.py
-- (backend/src/docos): a literal text is replaced in every run that is not redacted.
pub mod Matching
pub mod Plan
pub mod Occurs
pub mod Cuts
pub mod Safe
mod Tests
