-- ===== src/Versions/Kept.antt =====
-- Each way to change the rows keeps them sound.
use cross_format_documment.Base.{
  String, ◌==◌, Option, none, some, true, List, ◌≡◌, refl, sym, ◌∙◌, ap, inl, inr, text_eq, neq_sym,
}
use cross_format_documment.Base.Lists.{keep}
use cross_format_documment.Base.Maps.{put-cases, del-some}
use cross_format_documment.Base.Http.{Http, reply, fail, Http-cases}
use cross_format_documment.Model.{CanonicalDocument}
use cross_format_documment.Access.Owner.{Actor, Document, get_owned_document}
use cross_format_documment.Versions.Store.{
  Serializer, DocumentVersion, Store, find_version, lineage, newest_id, set_current, commit,
  commit_version, put_version, version_row,
}
use cross_format_documment.Versions.Routes.{
  undo_target, redo_target, moved, move_to, undo, redo, delete_document, without_document,
  persist_document, with_document, is_other,
}
use cross_format_documment.Versions.Rows.{Keyed, Keyed-keep, kept-row, row-kept, newest_id-row}
use cross_format_documment.Versions.Sound.{
  IsFaithful, RowSound, Sound, version_row-RowSound, add_version-Sound, added_is_there,
  with_current-Sound,
}
use cross_format_documment.Versions.Loaded.{undo_target-row, redo_target-row}

abbrev pub StoreSound : {J : Type 0} → Serializer J → Store J → Type 0
StoreSound s store = Sound s store.docs store.versions

none≢some : {A : Type 0} {a : A} → none ≡ some a → ⊥
none≢some h = cc

abbrev current_version : Document → Option String
current_version d = d.current_version_id

module _ {J : Type 0} (s : Serializer J) (faithful : IsFaithful s) where
  -- `commit_version` keeps the rows sound, and its id is a row of the document.
  pub commit_version-Sound :
      (store : Store J) (doc : CanonicalDocument) (patch : Option String)
      → StoreSound s store
      → StoreSound s (commit_version s store doc patch).0
        × ((w : DocumentVersion J) × (find_version
                (commit_version s store doc patch).0.versions
                (commit_version s store doc patch).1
              ≡ some w)
            × (w.document_id ≡ doc.doc_id))
  unfolding commit_version commit lineage
  commit_version-Sound store doc patch h =
      let parent = newest_id (lineage store doc.doc_id) in
      let v = version_row s doc parent patch in
      let row : RowSound s store.versions v =
        version_row-RowSound s faithful store.versions doc parent patch (λ p e. newest_row p e) in
      (
        add_version-Sound s faithful store.docs store.versions v h row,
        added_is_there s faithful store.versions v h.rows row,
      )
    where
      newest_row :
          (p : String)
          → newest_id (lineage store doc.doc_id) ≡ some p
          → (w : DocumentVersion J) × (find_version store.versions p ≡ some w)
            × (w.document_id ≡ doc.doc_id)
      newest_row p e =
          let (w, found, own) =
            newest_id-row (λ v. v.document_id == doc.doc_id) store.versions p h.keyed e in
          (w, found, text_eq w.document_id doc.doc_id own)

  pub put_version-Sound :
      (store : Store J) (doc_id : String) (doc : CanonicalDocument) (patch : Option String)
      → doc.doc_id ≡ doc_id
      → StoreSound s store
      → StoreSound s (put_version s store doc_id doc patch).0
  unfolding put_version set_current
  put_version-Sound store doc_id doc patch same h =
      let (sound, (w, there, own)) = commit_version-Sound store doc patch h in
      with_current-Sound s faithful (commit_version s store doc patch).0.docs
        (commit_version s store doc patch).0.versions doc_id (commit_version s store doc patch).1 w
        sound there (own ∙ same)

  moved-Sound :
      (store : Store J) (doc_id : String) (actor : Actor) (action : String) (target : Http String)
      → StoreSound s store
      → ((p : String)
          → target ≡ reply p
          → (w : DocumentVersion J) × (find_version store.versions p ≡ some w)
            × (w.document_id ≡ doc_id))
      → StoreSound s (moved s store doc_id actor action target).0
  unfolding move_to set_current
  moved-Sound store doc_id actor action (fail c) h to = h
  moved-Sound store doc_id actor action (reply p) h to =
      let (w, found, own) = to p refl in
      with_current-Sound s faithful store.docs store.versions doc_id p w h found own

  pub undo-Sound :
      (store : Store J) (doc_id : String) (actor : Actor)
      → StoreSound s store
      → StoreSound s (undo s store doc_id actor).0
  unfolding undo
  undo-Sound store doc_id actor h =
      moved-Sound store doc_id actor "version.reverted" (undo_target store doc_id actor) h
        (λ p e. undo_target-row s store doc_id actor p h e)

  pub redo-Sound :
      (store : Store J) (doc_id : String) (actor : Actor)
      → StoreSound s store
      → StoreSound s (redo s store doc_id actor).0
  unfolding redo
  redo-Sound store doc_id actor h =
      moved-Sound store doc_id actor "version.reapplied" (redo_target store doc_id actor) h
        (λ p e. redo_target-row s store doc_id actor p h e)

  with_document-Sound :
      (store : Store J) (d : Document)
      → d.current_version_id ≡ none
      → StoreSound s store
      → StoreSound s (with_document store d)
  with_document-Sound store d new h = record {
    keyed = h.keyed;
    rows = h.rows;
    current = λ i e c row at. elim (put-cases store.docs d.id d i e row) [
      | inl (_, same) ↦ absurd (none≢some (sym new ∙ ap current_version same ∙ at))
      | inr old ↦ h.current i e c old at
    ];
  }

  -- A new document has no current version until its first one is committed.
  pub persist_document-Sound :
      (store : Store J) (doc : CanonicalDocument) (who : String)
      → StoreSound s store
      → StoreSound s (persist_document s store doc who).0
  unfolding persist_document set_current
  persist_document-Sound store doc who h =
      put_version-Sound
        (with_document store (record {
          id = doc.doc_id;
          owner_session_id = some who;
          owner_user_id = none;
          current_version_id = none;
        }))
        doc.doc_id doc none refl
        (with_document-Sound store
          (record {
            id = doc.doc_id;
            owner_session_id = some who;
            owner_user_id = none;
            current_version_id = none;
          })
          refl h)

  kept-RowSound :
      (vs : List (DocumentVersion J)) (doc_id : String) (v : DocumentVersion J)
      → Keyed vs
      → is_other doc_id v ≡ true
      → RowSound s vs v
      → RowSound s (keep (is_other doc_id) vs) v
  kept-RowSound vs doc_id v k passes sound = record {
    hashed = sound.hashed;
    owned = sound.owned;
    parent = λ p e.
        let (w, found, own) = sound.parent p e in
        (w, row-kept (is_other doc_id) vs p w k found (rw own passes), own);
  }

  -- The rows of the other documents are each other's parents.
  pub without_document-Sound :
      (store : Store J) (doc_id : String)
      → StoreSound s store
      → StoreSound s (without_document store doc_id)
  unfolding without_document
  without_document-Sound store doc_id h = record {
    keyed = Keyed-keep (is_other doc_id) store.versions h.keyed;
    rows = λ i v found.
        let (old, passes) = kept-row (is_other doc_id) store.versions i v h.keyed found in
        kept-RowSound store.versions doc_id v h.keyed passes (h.rows i v old);
    current = λ i d c row at.
        let (other, old) = del-some store.docs doc_id i d row in
        let (w, found, own) = h.current i d c old at in
        (
          w,
          row-kept (is_other doc_id) store.versions c w h.keyed found
              (rw (own, neq_sym doc_id i other) refl),
          own,
        );
  }

  pub delete_document-Sound :
      (store : Store J) (doc_id : String) (actor : Actor)
      → StoreSound s store
      → StoreSound s (delete_document s store doc_id actor).0
  unfolding delete_document
  delete_document-Sound store doc_id actor h =
      elim (Http-cases (get_owned_document store.docs doc_id actor)) [
        | inl (c, refused) ↦ rw (delete_document, refused) h
        | inr (d, owned) ↦ rw (delete_document, owned) (without_document-Sound store doc_id h)
      ]
