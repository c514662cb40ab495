-- ===== src/Access.antt =====
-- api/access.py, the actor of api/session.py and services/auth/share_tokens.py (backend/src/docos): who
-- owns what, what a login claims, and which portal links open.
pub mod Owner
pub mod Claim
pub mod Share
mod Tests
