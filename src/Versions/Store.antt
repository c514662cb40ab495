-- ===== src/Versions/Store.antt =====
-- The rows of documents, versions and audit events, and the commit of a version. Rows stand in the
-- order of their creation.
use cross_format_documment.Base.{
  String, ◌==◌, Option, none, some, List, [], ◌∷◌, ◌++◌, map, if◌then◌else◌,
}
use cross_format_documment.Base.Lists.{keep}
use cross_format_documment.Base.Maps.{Map, put}
use cross_format_documment.Base.Text.{join}
use cross_format_documment.Model.{Value, CanonicalDocument}
use cross_format_documment.Access.Owner.{Document}

-- What serialize.py takes from pydantic, json and hashlib: the JSON value of a document, a document
-- from such a value (`none` is a ValidationError), the value without its key `content_hash`, its
-- text, and the digest in digits. `id_of` is what a value has under its key `doc_id`.
pub record Serializer (J : Type 0) : Type 0 where
  pub model_dump : CanonicalDocument → J
  pub model_validate : J → Option CanonicalDocument
  pub id_of : J → Option String
  pub pop_content_hash : J → J
  pub dumps : J → String
  pub sha256 : String → String

pub record DocumentVersion (J : Type 0) : Type 0 where
  pub id : String
  pub document_id : String
  pub parent_id : Option String
  pub model : J
  pub patch_id : Option String

pub record AuditEvent : Type 0 where
  pub document_id : Option String
  pub action : String
  pub actor : String
  pub detail : List (String × Value)

pub record Store (J : Type 0) : Type 0 where
  pub docs : Map Document
  pub versions : List (DocumentVersion J)
  pub events : List AuditEvent

-- `session.get(DocumentVersion, version_id)`
unfoldable pub find_version :
    {J : Type 0} → List (DocumentVersion J) → String → Option (DocumentVersion J)
find_version [] version_id = none
find_version (v ∷ versions) version_id =
    let later = find_version versions version_id in if v.id == version_id then some v else later

unfoldable pub lineage : {J : Type 0} → Store J → String → List (DocumentVersion J)
lineage store doc_id = keep (λ v. v.document_id == doc_id) store.versions

-- `lineage[-1].id if lineage else None`
abbrev pub newest_id : {J : Type 0} → List (DocumentVersion J) → Option String
newest_id [] = none
newest_id (v ∷ []) = some v.id
newest_id (v ∷ w ∷ versions) = newest_id (w ∷ versions)

-- `write_event`
abbrev pub record_event : {J : Type 0} → Store J → AuditEvent → Store J
record_event store e = record store { events = store.events ++ e ∷ [] }

-- `record.current_version_id = version_id`, where `session.get` finds the document
unfoldable pub with_current : Map Document → String → String → Map Document
with_current docs doc_id version_id = elim (docs doc_id) [
  | none ↦ docs
  | some d ↦ put docs doc_id (record d { current_version_id = some version_id })
]

unfoldable pub set_current : {J : Type 0} → Store J → String → String → Store J
unfolding with_current
set_current store doc_id version_id = record store {
  docs = with_current store.docs doc_id version_id;
}

abbrev pub with_content_hash : CanonicalDocument → String → CanonicalDocument
with_content_hash doc h = record doc { content_hash = some h }

-- `if existing is None: session.add(...)`: a row that has the id already is left as it is.
unfoldable pub add_version :
    {J : Type 0} → List (DocumentVersion J) → DocumentVersion J → List (DocumentVersion J)
unfolding find_version
add_version versions v = elim (find_version versions v.id) [
  | none ↦ versions ++ v ∷ []
  | some existing ↦ versions
]

module _ {J : Type 0} (s : Serializer J) where
  unfoldable pub to_dict : CanonicalDocument → J
  to_dict doc = s.model_dump doc

  unfoldable pub from_dict : J → Option CanonicalDocument
  from_dict stored = s.model_validate stored

  -- the end of `canonical_hash`, on the value of the document
  abbrev pub json_hash : J → String
  json_hash payload = join "sha256:" (s.sha256 (s.dumps (s.pop_content_hash payload)))

  unfoldable pub canonical_hash : CanonicalDocument → String
  unfolding to_dict
  canonical_hash doc = json_hash (to_dict doc)

  -- The row that `commit` adds: the document carries its hash by then.
  unfoldable pub version_row : CanonicalDocument → Option String → Option String → DocumentVersion J
  unfolding to_dict canonical_hash
  version_row doc parent_id patch_id = record {
    id = canonical_hash doc;
    document_id = doc.doc_id;
    parent_id = parent_id;
    model = to_dict (with_content_hash doc (canonical_hash doc));
    patch_id = patch_id;
  }

  -- `commit`
  unfoldable pub commit :
      Store J → CanonicalDocument → Option String → Option String → Store J × String
  unfolding add_version version_row
  commit store doc parent_id patch_id =
      let v = version_row doc parent_id patch_id in
      (record store { versions = add_version store.versions v }, v.id)

  -- `commit_version`: the parent is the newest version of the document
  unfoldable pub commit_version : Store J → CanonicalDocument → Option String → Store J × String
  unfolding commit lineage
  commit_version store doc patch_id =
      commit store doc (newest_id (lineage store doc.doc_id)) patch_id

  -- `commit_version`, and the row of the document that is set to it
  unfoldable pub put_version :
      Store J → String → CanonicalDocument → Option String → Store J × String
  unfolding commit_version set_current
  put_version store doc_id doc patch_id =
      let (committed, version_id) = commit_version store doc patch_id in
      (set_current committed doc_id version_id, version_id)

-- An entry of `history`: the version, its parent and its patch.
pub record VersionRef : Type 0 where
  pub version_id : String
  pub parent_id : Option String
  pub patch_id : Option String

abbrev pub version_ref : {J : Type 0} → DocumentVersion J → VersionRef
version_ref v = record { version_id = v.id; parent_id = v.parent_id; patch_id = v.patch_id }

unfoldable pub history : {J : Type 0} → Store J → String → List VersionRef
unfolding lineage
history store doc_id = map version_ref (lineage store doc_id)
