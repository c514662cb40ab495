-- ===== src/Versions/Undo.antt =====
-- Where undo and redo go after a commit.
use cross_format_documment.Base.{String, eq_refl, Option, none, some, ◌≡◌, refl, ◌∙◌, ap}
use cross_format_documment.Base.Lists.{keep}
use cross_format_documment.Base.Http.{reply, found}
use cross_format_documment.Model.{CanonicalDocument}
use cross_format_documment.Access.Owner.{
  Actor, Document, Owned, get_owned_document, get_owned_document_lem,
}
use cross_format_documment.Versions.Store.{
  Serializer, DocumentVersion, Store, find_version, lineage, newest_id, set_current, with_current,
  canonical_hash, version_row, add_version, commit, commit_version, put_version,
}
use cross_format_documment.Versions.Routes.{
  current_id, parent_of, is_child_of, undo_target, redo_target, undo, move_to,
}
use cross_format_documment.Versions.Rows.{
  newest_id-append, find_added_new, find_added_known, add_version_new,
}

module _ {J : Type 0} where
  -- The owner of a document finds the version that was set.
  pub current_id-set_current :
      (store : Store J) (doc_id c : String) (actor : Actor) (d : Document)
      → store.docs doc_id ≡ some d
      → Owned d actor
      → current_id (set_current store doc_id c) doc_id actor ≡ reply c
  unfolding current_id set_current with_current Owned
  current_id-set_current store doc_id c actor d row owned =
      let e : get_owned_document (with_current store.docs doc_id c) doc_id actor
          ≡ reply (record d { current_version_id = some c }) =
        (get_owned_document_lem (with_current store.docs doc_id c) doc_id actor
            (record d { current_version_id = some c })).0.1
          (rw (with_current, row) (rw (eq_refl doc_id) refl), owned) in
      rw (current_id, set_current, e) refl

  undo_target-found :
      (store : Store J) (doc_id c : String) (actor : Actor)
      → current_id store doc_id actor ≡ reply c
      → undo_target store doc_id actor ≡ found (parent_of (find_version store.versions c)) 409
  unfolding undo_target
  undo_target-found store doc_id c actor h = rw h refl

  redo_target-found :
      (store : Store J) (doc_id c : String) (actor : Actor)
      → current_id store doc_id actor ≡ reply c
      → redo_target store doc_id actor
        ≡ found (newest_id (keep (is_child_of doc_id c) store.versions)) 409
  unfolding redo_target
  redo_target-found store doc_id c actor h = rw h refl

-- After an undo, redo looks for the newest child of the version that undo went to.
redo_after_undo :
    {J : Type 0} (s : Serializer J) (store : Store J) (doc_id p : String) (actor : Actor)
    (d : Document)
    → store.docs doc_id ≡ some d
    → Owned d actor
    → undo_target store doc_id actor ≡ reply p
    → redo_target (undo s store doc_id actor).0 doc_id actor
      ≡ found (newest_id (keep (is_child_of doc_id p) store.versions)) 409
unfolding undo move_to set_current current_id
redo_after_undo s store doc_id p actor d row owned h =
    rw (undo, h)
      (redo_target-found (move_to s store doc_id actor "version.reverted" p).0 doc_id p actor
        (current_id-set_current store doc_id p actor d row owned))

module _ {J : Type 0} (s : Serializer J) (store : Store J) (doc_id : String)
    (doc : CanonicalDocument) (patch : Option String) (actor : Actor) (d : Document)
    (row : store.docs doc_id ≡ some d) (owned : Owned d actor) (same : doc.doc_id ≡ doc_id) where
  -- The rows after the edit.
  abbrev edited : Store J
  edited = (put_version s store doc_id doc patch).0

  current_id-edited : current_id edited doc_id actor ≡ reply (canonical_hash s doc)
  unfolding put_version commit_version commit version_row
  current_id-edited =
      current_id-set_current (commit_version s store doc patch).0 doc_id (canonical_hash s doc)
        actor d row owned

  abbrev edit_row : DocumentVersion J
  edit_row = version_row s doc (newest_id (lineage store doc.doc_id)) patch

  undo_target-edited :
      (w : DocumentVersion J)
      → find_version (add_version store.versions edit_row) edit_row.id ≡ some w
      → undo_target edited doc_id actor ≡ found w.parent_id 409
  unfolding put_version commit_version commit version_row
  undo_target-edited w h =
      undo_target-found edited doc_id (canonical_hash s doc) actor current_id-edited
      ∙ ap (λ o. found (parent_of o) 409) h

  redo_target-edited :
      (p : String)
      → newest_id (keep (is_child_of doc_id p) (add_version store.versions edit_row))
        ≡ some edit_row.id
      → undo_target edited doc_id actor ≡ reply p
      → redo_target (undo s edited doc_id actor).0 doc_id actor ≡ reply edit_row.id
  unfolding undo move_to put_version commit_version commit set_current Owned
  redo_target-edited p h back =
      redo_after_undo s edited doc_id p actor (record d { current_version_id = some edit_row.id })
        (rw (with_current, row) (rw (eq_refl doc_id) refl)) owned back
      ∙ ap (λ o. found o 409) h

  -- An edit whose content is new: undo goes to the version that was newest before the edit, whether
  -- or not that was the current one, and redo goes to the edit again.
  pub undo_after_edit :
      (p : String)
      → find_version store.versions (canonical_hash s doc) ≡ none
      → newest_id (lineage store doc_id) ≡ some p
      → (undo_target edited doc_id actor ≡ reply p)
        × (redo_target (undo s edited doc_id actor).0 doc_id actor ≡ reply (canonical_hash s doc))
  unfolding version_row
  undo_after_edit p fresh newest =
      let parent : newest_id (lineage store doc.doc_id) ≡ some p = rw same newest in
      let back : undo_target edited doc_id actor ≡ reply p =
        undo_target-edited edit_row (find_added_new store.versions edit_row fresh)
        ∙ ap (λ o. found o 409) parent in
      (
        back,
        redo_target-edited p
            (rw (add_version_new store.versions edit_row fresh) (
              newest_id-append (is_child_of doc_id p) store.versions edit_row
                (rw parent (rw (eq_refl p) (rw same (rw (eq_refl doc_id) refl))))))
            back,
      )

  -- An edit whose content some version has already: undo goes to the parent of that version, and to
  -- none where it has none.
  pub undo_after_return :
      (w : DocumentVersion J)
      → find_version store.versions (canonical_hash s doc) ≡ some w
      → undo_target edited doc_id actor ≡ found w.parent_id 409
  unfolding version_row
  undo_after_return w known =
      undo_target-edited w (find_added_known store.versions edit_row w known)
