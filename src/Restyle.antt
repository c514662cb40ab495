-- ===== src/Restyle.antt =====
-- services/semantic/restyle.py (backend/src/docos) and the route of api/routes_patches.py that commits
-- what it builds: one style for many runs.
pub mod Build
pub mod Steps
pub mod Keep
mod Tests
