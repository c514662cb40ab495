-- ===== src/Versions.antt =====
-- services/provenance/versions.py, service.py and audit.py, model/serialize.py, and the routes that
-- change a document (backend/src/docos): every change is a row of its own, whose id is the hash of the
-- content.
pub mod Store
pub mod Routes
pub mod Edits
pub mod Rows
pub mod Sound
pub mod Loaded
pub mod Kept
pub mod Reached
pub mod Undo
pub mod Contents
pub mod Checked
pub mod Samples
mod Tests
