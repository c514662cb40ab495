-- ===== src/Versions/Routes.antt =====
-- The routes of api/routes_documents.py (backend/src/docos) that read a document, its history, and
-- move between its versions.
use cross_format_documment.Base.{
  String, ◌==◌, Option, none, some, Bool, true, false, List, [], ◌∷◌, ◌&&◌, if◌then◌else◌,
}
use cross_format_documment.Base.Lists.{keep}
use cross_format_documment.Base.Maps.{put, del}
use cross_format_documment.Base.Http.{Http, reply, fail, found, ◌>>=◌}
use cross_format_documment.Model.{str, CanonicalDocument}
use cross_format_documment.Access.Owner.{Actor, Document, get_owned_document, same_text}
use cross_format_documment.Versions.Store.{
  Serializer, DocumentVersion, Store, VersionRef, find_version, newest_id, record_event,
  set_current, from_dict, put_version, history,
}

-- `DocumentModelResponse`
pub record ModelResponse : Type 0 where
  pub document : CanonicalDocument
  pub version_id : Option String

-- `DocumentVersion.parent_id == version_id` and `document_id == doc_id`
abbrev pub is_child_of : {J : Type 0} → String → String → DocumentVersion J → Bool
is_child_of doc_id version_id v = v.document_id == doc_id && same_text v.parent_id version_id

-- The current version's id; the row of the document may have none.
unfoldable pub current_id : {J : Type 0} → Store J → String → Actor → Http String
unfolding get_owned_document
current_id store doc_id actor = do
  row ← get_owned_document store.docs doc_id actor
  found row.current_version_id 404

-- `current is None or current.parent_id is None`
abbrev pub parent_of : {J : Type 0} → Option (DocumentVersion J) → Option String
parent_of none = none
parent_of (some v) = v.parent_id

-- Where `undo` goes, if its tests pass.
unfoldable pub undo_target : {J : Type 0} → Store J → String → Actor → Http String
unfolding current_id find_version
undo_target store doc_id actor = do
  current ← current_id store doc_id actor
  found (parent_of (find_version store.versions current)) 409

-- Where `redo` goes: the newest version whose parent is the current one.
unfoldable pub redo_target : {J : Type 0} → Store J → String → Actor → Http String
unfolding current_id
redo_target store doc_id actor = do
  current ← current_id store doc_id actor
  found (newest_id (keep (is_child_of doc_id current) store.versions)) 409

-- `session.add(record)`
abbrev pub with_document : {J : Type 0} → Store J → Document → Store J
with_document store d = record store { docs = put store.docs d.id d }

-- a version of another document
abbrev pub is_other : {J : Type 0} → String → DocumentVersion J → Bool
is_other doc_id v = if v.document_id == doc_id then false else true

-- `delete_document` on the rows: the versions go with their document.
unfoldable pub without_document : {J : Type 0} → Store J → String → Store J
without_document store doc_id = record store {
  docs = del store.docs doc_id;
  versions = keep (is_other doc_id) store.versions;
}

module _ {J : Type 0} (s : Serializer J) where
  -- `from_dict(version.model)` of a row, where there is one
  abbrev pub model_of : Option (DocumentVersion J) → Option CanonicalDocument
  model_of none = none
  model_of (some v) = from_dict s v.model

  -- `from_dict(session.get(DocumentVersion, version_id).model)`, `none` where that raises
  unfoldable pub stored_model : Store J → String → Option CanonicalDocument
  unfolding find_version from_dict
  stored_model store version_id = model_of (find_version store.versions version_id)

  -- `_load_latest`: the current version's id and its model. The status 500 is the answer to an
  -- exception: a model that is not valid any more.
  unfoldable pub load_latest : Store J → String → Actor → Http (String × CanonicalDocument)
  unfolding current_id find_version from_dict
  load_latest store doc_id actor = do
    current ← current_id store doc_id actor
    version ← found (find_version store.versions current) 404
    doc ← found (from_dict s version.model) 500
    reply (current, doc)

  unfoldable pub get_model : Store J → String → Actor → Http ModelResponse
  unfolding load_latest
  get_model store doc_id actor = do
    (current, doc) ← load_latest store doc_id actor
    reply (record { document = doc; version_id = some current })

  unfoldable pub get_history : Store J → String → Actor → Http (List VersionRef)
  unfolding get_owned_document history
  get_history store doc_id actor = do
    _ ← get_owned_document store.docs doc_id actor
    reply (history store doc_id)

  -- The end of `undo` and `redo`. The change is stored before the model is read, and a version that
  -- is not there, or not valid, is an error that nobody catches.
  unfoldable pub move_to : Store J → String → Actor → String → String → Store J × Http ModelResponse
  unfolding set_current stored_model
  move_to store doc_id actor action version_id = (
    record_event (set_current store doc_id version_id) (record {
      document_id = some doc_id;
      action = action;
      actor = actor.session_id;
      detail = ("to", str version_id) ∷ [];
    }),
    do
      doc ← found (stored_model store version_id) 500
      reply (record { document = doc; version_id = some version_id }),
  )

  abbrev pub moved : Store J → String → Actor → String → Http String → Store J × Http ModelResponse
  moved store doc_id actor action (fail c) = (store, fail c)
  moved store doc_id actor action (reply target) = move_to store doc_id actor action target

  unfoldable pub undo : Store J → String → Actor → Store J × Http ModelResponse
  unfolding undo_target move_to
  undo store doc_id actor =
      moved store doc_id actor "version.reverted" (undo_target store doc_id actor)

  unfoldable pub redo : Store J → String → Actor → Store J × Http ModelResponse
  unfolding redo_target move_to
  redo store doc_id actor =
      moved store doc_id actor "version.reapplied" (redo_target store doc_id actor)

  -- The rows of `delete_document`; the blob is deleted afterwards.
  unfoldable pub delete_document : Store J → String → Actor → Store J × Http (Unit {0})
  unfolding get_owned_document without_document
  delete_document store doc_id actor = elim (get_owned_document store.docs doc_id actor) [
    | fail c ↦ (store, fail c)
    | reply row ↦ (
      record_event (without_document store doc_id) (record {
        document_id = some doc_id;
        action = "document.deleted";
        actor = actor.session_id;
        detail = [];
      }),
      reply tt,
    )
  ]

  -- The rows of `persist_document` for a parsed document: its row, its first version, its event.
  unfoldable pub persist_document : Store J → CanonicalDocument → String → Store J × String
  unfolding put_version
  persist_document store doc owner_session_id =
      let (stored, version_id) =
        put_version s
          (with_document store (record {
            id = doc.doc_id;
            owner_session_id = some owner_session_id;
            owner_user_id = none;
            current_version_id = none;
          }))
          doc.doc_id doc none in
      (
        record_event stored (record {
          document_id = some doc.doc_id;
          action = "document.ingested";
          actor = owner_session_id;
          detail = ("format", str doc.meta.source_format) ∷ [];
        }),
        version_id,
      )
