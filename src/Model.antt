-- ===== src/Model.antt =====
-- The canonical document model (backend/src/docos/model): a registry of typed nodes keyed by id,
-- with parent and child edges, and the document's trust state.
mod Values
mod Nodes
mod Documents
pub use Values.{Value, null, flag, int, str, opaque}
unfoldable pub use Values.{truthy}
pub use Nodes.*
pub use Documents.*
