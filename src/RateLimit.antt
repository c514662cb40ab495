-- ===== src/RateLimit.antt =====
-- api/ratelimit.py (backend/src/docos): token buckets, and the dependencies that draw from them.
pub mod Bucket
pub mod Enforce
pub mod Bound
mod Tests
