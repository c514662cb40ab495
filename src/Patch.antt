-- ===== src/Patch.antt =====
-- Reversible patches: model/patch.py and the executor of services/semantic/orchestrator.py
-- (backend/src/docos).
pub mod Op
pub mod Graph
pub mod Subtree
pub mod Fields
pub mod Renumber
pub mod Tree
pub mod Table
pub mod Cell
pub mod Execute
pub mod Restore
pub mod Undo
pub mod Walk
pub mod Marks
pub mod Frame
pub mod Filter
mod Tests
