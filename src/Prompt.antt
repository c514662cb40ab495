-- ===== src/Prompt.antt =====
-- services/semantic/prompt.py (backend/src/docos): which of a language model's tool calls become
-- operations.
pub mod Coerce
pub mod Safe
mod Tests
