-- ===== src/Lib.antt =====
-- Verification of the backend of Cross-Format Document (backend/src/docos): the document model, the
-- executor of reversible patches, versions with undo and redo, suggestions, the routes that edit a
-- document (find and replace, restyling, redaction of sensitive data, remediation of accessibility, the
-- seal), redaction in exports, ownership and sharing, approvals, rate limits, signatures, presence,
-- plans, comparison, and the operations that a language model may cause.
--
-- The parts and how they interact. A document is a registry of nodes with marks and metadata. Every
-- edit, a user's or a language model's, is a list of operations that the executor applies one by one;
-- each returns the operation that undoes it, and `revert` runs those. Exports and comparisons read node
-- texts through the redaction filter. Routes load a document through the ownership check behind the
-- rate limits, and approvals keep their steps beside the document. What a route's edit gives is
-- committed as a version, a row under the hash of its content, and the document's row names the current
-- one; a suggestion is an edit that waits for its acceptance.
--
-- The files. Base has what all parts share: tests, lists, dictionaries, results of code that may raise
-- (Base/Result) and of request handlers (Base/Http).
--   Model/Nodes         backend/src/docos/model/nodes.py: NodeType, BaseNode and the classes below it
--   Model/Documents     backend/src/docos/model/document.py: the fields of CanonicalDocument
--   Patch/Op            backend/src/docos/model/patch.py: the operations with the payload keys that
--                       are read, and the parameters of the executor
--   Patch/Graph, Subtree, Renumber, Cell
--                       backend/src/docos/services/semantic/orchestrator.py: the helpers
--                       _clamp_index, _insert_child, _subtree_ids, _restore_subtree,
--                       _remove_subtree, _renumber_table, _cell_text
--   Patch/Fields, Tree, Table, Cell
--                       the branches of _apply_one there: fields, marks and metadata; adding,
--                       removing, moving, duplicating; rows and columns; a cell's text
--   Patch/Execute       _apply_one, apply and revert
--   Patch/Restore, Undo, Walk, Marks, Frame, Filter
--                       proofs about the executor
--   Redaction           backend/src/docos/services/docengine/writers/redaction.py
--   Access/Owner        backend/src/docos/api/access.py and the Actor of api/session.py
--   Access/Claim        claim_session_assets there
--   Access/Share        get_valid_share there, and backend/src/docos/services/auth/share_tokens.py
--   Approvals/Rules     backend/src/docos/services/collab/approvals.py
--   Approvals/Workflow  backend/src/docos/api/routes_approvals.py
--   Approvals/Progress, Decision, Order, Sequence, History
--                       proofs about the workflows
--   RateLimit           backend/src/docos/api/ratelimit.py: Bucket and Enforce; Bound is a proof
--   Signing             backend/src/docos/services/provenance/signing.py
--   Prompt/Coerce       backend/src/docos/services/semantic/prompt.py: ops_from_tool_calls
--   Presence/Hub        backend/src/docos/services/collab/presence.py: MemoryHub; Live is a proof
--   Plans               backend/src/docos/services/billing/plans.py; Plans/Portal is a proof
--   Diff/Blocks, Segments
--                       backend/src/docos/services/provenance/diff.py; Diff/Sides is a proof
--   Health              backend/src/docos/services/provenance/health.py; Health/Clean is a proof
--   Versions/Store      backend/src/docos/services/provenance/versions.py, service.py and audit.py, and
--                       backend/src/docos/model/serialize.py
--   Versions/Routes     backend/src/docos/api/routes_documents.py: _load_latest, get_model, get_history,
--                       undo, redo, and the rows of persist_document and delete_document
--   Versions/Edits      backend/src/docos/api/_apply.py, patch_security.py, and create_patch of
--                       routes_patches.py
--   Versions/Rows, Sound, Loaded, Kept, Reached, Undo, Contents, Checked
--                       proofs about versions
--   Suggestions         backend/src/docos/api/routes_suggestions.py; Loading, Decided and
--                       Accepted are proofs
--   Replace/Matching, Plan
--                       backend/src/docos/services/docengine/find_replace.py, and find_replace of
--                       routes_patches.py; Occurs, Cuts and Safe are proofs
--   Sensitive/Mask, Scan, Presidio
--                       backend/src/docos/services/provenance/sensitive.py, presidio.py and
--                       pii.py; Darker, Found and Clean are proofs
--   Sensitive/Routes    scan_sensitive and redact_sensitive of routes_patches.py
--   Batches/Commit, Remediate, Seal
--                       backend/src/docos/services/provenance/accessibility.py, and of
--                       routes_patches.py sanitize_metadata, remediate_accessibility, sign_document
--                       and signature_status
--   Batches/Follows, Achieved, Tags, Complete, Sealed
--                       proofs about these
--   Restyle/Build       backend/src/docos/services/semantic/restyle.py, and restyle of
--                       routes_patches.py; Steps and Keep are proofs
--
-- State is passed explicitly: an operation takes a document and returns the new one, or the exception.
-- What Python leaves half changed when it raises is not modelled; `apply` and `revert` work on a
-- deep copy. Rows of a table stand in the order in which they were created. An exception that no
-- handler catches is the answer 500. Of a node, id, type, parent_id, children, bbox, attrs and tags are
-- fields of the record; all else that is set by name is an entry of `fields`. What is read of a stored
-- document may differ from what was written, or not be valid: only the theorem on the seal assumes the
-- contrary, of the one document that it is about.
--
-- Bounds and fuel. The walk over a subtree counts rounds and returns `diverges` where they run out
-- (`rounds` of Patch/Op); on a forest the number of its nodes and one more is enough. The loop of
-- `is_redacted`, the walk of a comparison and of a restyle, and the search for the types of ancestors
-- count rounds too; for the first of these one more than the registry has keys is enough.
--
-- Not modelled: the parsers and writers of formats, OCR, speech and the language model (external
-- programs and libraries); the web client; storage and migrations. Parameters are model_dump,
-- model_validate and validate_python (pydantic), new_node_id (random ids), casefold, lower and the
-- classes of characters (the tables of Unicode), the HMAC, the JSON text and SHA-256 behind the
-- canonical hash, the opcodes of SequenceMatcher, sealing, the check of a password, repr of a text, the
-- matches of the regular expressions for sensitive data (the language of expressions of the module re
-- is not modelled), what phonenumbers and the analyzer of Presidio say, int of what is no number,
-- equality of values, and `in` on what is no text. Token buckets count exact shares of tokens where the code
-- counts floats. A dictionary is a function from its keys; where code runs over a registry, its keys or
-- its nodes in their order are given beside it.
pub mod Base
pub mod Model
pub mod Patch
pub mod Redaction
pub mod Access
pub mod Approvals
pub mod RateLimit
pub mod Signing
pub mod Prompt
pub mod Presence
pub mod Plans
pub mod Diff
pub mod Health
pub mod Versions
pub mod Suggestions
pub mod Replace
pub mod Sensitive
pub mod Batches
pub mod Restyle
