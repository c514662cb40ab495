-- ===== src/Approvals.antt =====
-- services/collab/approvals.py and api/routes_approvals.py (backend/src/docos): the sign-off of a
-- document by several approvers.
pub mod Rules
pub mod Workflow
pub mod Progress
pub mod Decision
pub mod Order
pub mod Sequence
pub mod History
mod Tests
