-- ===== src/Presence.antt =====
-- services/collab/presence.py (backend/src/docos): who is viewing a document.
pub mod Hub
pub mod Live
mod Tests
