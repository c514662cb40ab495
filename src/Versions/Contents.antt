-- ===== src/Versions/Contents.antt =====
-- The versions as the values that are stored under their ids: a map whose entries are written once.
use cross_format_documment.Base.{
  String, ◌==◌, Option, none, some, List, [], ◌∷◌, ◌≡◌, refl, ◌∙◌, ap, fun_ext, if◌then◌else◌,
  Bool-cases, inl, inr,
}
use cross_format_documment.Base.Maps.{Map}
use cross_format_documment.Base.Http.{Http, reply, fail}
use cross_format_documment.Model.{CanonicalDocument}
use cross_format_documment.Access.Owner.{Actor}
use cross_format_documment.Versions.Store.{
  Serializer, DocumentVersion, Store, find_version, lineage, newest_id, set_current, canonical_hash,
  with_content_hash, to_dict, version_row, commit, commit_version, put_version,
}
use cross_format_documment.Versions.Routes.{
  undo_target, redo_target, undo, redo, move_to, moved, persist_document, with_document,
}
use cross_format_documment.Versions.Rows.{or_row, find_version-added}

-- The abstract store: an entry that is there stays as it is.
abbrev pub write_once {ℓ} : {V : Type ℓ} → Map V → String → V → Map V
write_once m k v i = elim (m i) [ none ↦ if k == i then some v else none | some w ↦ some w ]

-- The calls that add a version or move between versions.
pub data Call : Type 0 where
  ingest : CanonicalDocument → String → Call
  edit : String → CanonicalDocument → Option String → Call
  undo_call redo_call : String → Actor → Call

module _ {J : Type 0} (s : Serializer J) where
  pub run : List Call → Store J → Store J
  run [] store = store
  run (ingest doc who ∷ calls) store = run calls (persist_document s store doc who).0
  run (edit doc_id doc patch ∷ calls) store = run calls (put_version s store doc_id doc patch).0
  run (undo_call doc_id actor ∷ calls) store = run calls (undo s store doc_id actor).0
  run (redo_call doc_id actor ∷ calls) store = run calls (redo s store doc_id actor).0

  -- The value of a document that is committed, under the hash that it carries then.
  abbrev pub written : CanonicalDocument → Map J → Map J
  written doc m =
      write_once m (canonical_hash s doc) (to_dict s (with_content_hash doc (canonical_hash s doc)))

  -- The same calls on the abstract store.
  pub replay : List Call → Map J → Map J
  replay [] m = m
  replay (ingest doc who ∷ calls) m = replay calls (written doc m)
  replay (edit doc_id doc patch ∷ calls) m = replay calls (written doc m)
  replay (undo_call doc_id actor ∷ calls) m = replay calls m
  replay (redo_call doc_id actor ∷ calls) m = replay calls m

-- What is stored under the id of a version: the value that reads of it are made from.
abbrev pub json_of : {J : Type 0} → Option (DocumentVersion J) → Option J
json_of none = none
json_of (some v) = some v.model

unfoldable pub stored_json : {J : Type 0} → Store J → Map J
unfolding find_version
stored_json store version_id = json_of (find_version store.versions version_id)

module _ {J : Type 0} (s : Serializer J) where
  -- The value in a row, or in the added one.
  json_of-or_row :
      (o : Option (DocumentVersion J)) (doc : CanonicalDocument) (p patch : Option String)
      (i : String)
      → json_of (or_row o (version_row s doc p patch) i) ≡ (elim (json_of o) [
        | none ↦
            if canonical_hash s doc == i
            then some (to_dict s (with_content_hash doc (canonical_hash s doc)))
            else none
        | some d ↦ some d
      ])
  unfolding version_row
  json_of-or_row none doc p patch i = elim (Bool-cases (canonical_hash s doc == i)) [
    | inl same ↦ rw same refl
    | inr other ↦ rw other refl
  ]
  json_of-or_row (some w) doc p patch i = refl

  stored_json-put_version :
      (store : Store J) (doc_id : String) (doc : CanonicalDocument) (patch : Option String)
      → stored_json (put_version s store doc_id doc patch).0 ≡ written s doc (stored_json store)
  unfolding stored_json put_version commit_version commit set_current
  stored_json-put_version store doc_id doc patch = fun_ext λ i.
      let v = version_row s doc (newest_id (lineage store doc.doc_id)) patch in
      ap json_of (find_version-added store.versions v i)
      ∙ json_of-or_row (find_version store.versions i) doc (newest_id (lineage store doc.doc_id))
          patch i

  stored_json-moved :
      (store : Store J) (doc_id : String) (actor : Actor) (action : String) (target : Http String)
      → stored_json (moved s store doc_id actor action target).0 ≡ stored_json store
  unfolding stored_json move_to set_current
  stored_json-moved store doc_id actor action (fail c) = refl
  stored_json-moved store doc_id actor action (reply p) = refl

  stored_json-undo :
      (store : Store J) (doc_id : String) (actor : Actor)
      → stored_json (undo s store doc_id actor).0 ≡ stored_json store
  unfolding undo
  stored_json-undo store doc_id actor =
      stored_json-moved store doc_id actor "version.reverted" (undo_target store doc_id actor)

  stored_json-redo :
      (store : Store J) (doc_id : String) (actor : Actor)
      → stored_json (redo s store doc_id actor).0 ≡ stored_json store
  unfolding redo
  stored_json-redo store doc_id actor =
      stored_json-moved store doc_id actor "version.reapplied" (redo_target store doc_id actor)

  stored_json-persist :
      (store : Store J) (doc : CanonicalDocument) (who : String)
      → stored_json (persist_document s store doc who).0 ≡ written s doc (stored_json store)
  unfolding persist_document stored_json
  stored_json-persist store doc who =
      stored_json-put_version
        (with_document store (record {
          id = doc.doc_id;
          owner_session_id = some who;
          owner_user_id = none;
          current_version_id = none;
        }))
        doc.doc_id doc none

  -- Every run of uploads, edits, undoes and redoes, without deletions, does to the values that are
  -- stored under the ids of versions what the same calls do to a map whose entries are written once:
  -- each upload and edit writes the document with its hash under that hash, unless an entry is there,
  -- and no entry is changed or removed.
  pub run_refines :
      (calls : List Call) (store : Store J)
      → stored_json (run s calls store) ≡ replay s calls (stored_json store)
  unfolding run replay
  run_refines [] store = refl
  run_refines (ingest doc who ∷ calls) store =
      run_refines calls (persist_document s store doc who).0
      ∙ ap (replay s calls) (stored_json-persist store doc who)
  run_refines (edit doc_id doc patch ∷ calls) store =
      run_refines calls (put_version s store doc_id doc patch).0
      ∙ ap (replay s calls) (stored_json-put_version store doc_id doc patch)
  run_refines (undo_call doc_id actor ∷ calls) store =
      run_refines calls (undo s store doc_id actor).0
      ∙ ap (replay s calls) (stored_json-undo store doc_id actor)
  run_refines (redo_call doc_id actor ∷ calls) store =
      run_refines calls (redo s store doc_id actor).0
      ∙ ap (replay s calls) (stored_json-redo store doc_id actor)
