-- ===== src/Versions/Loaded.antt =====
-- What the routes that load a document find, where the rows are sound.
use cross_format_documment.Base.{
  String, some, Bool, true, false, ◌&&◌, ◌≡◌, refl, sym, ◌∙◌, ap, text_eq,
}
use cross_format_documment.Base.Lists.{keep}
use cross_format_documment.Base.Http.{
  reply, found, ◌>>=◌, >>=-eq-reply, found-eq-reply, found-some, reply-injective,
}
use cross_format_documment.Model.{CanonicalDocument}
use cross_format_documment.Access.Owner.{
  Actor, Document, Owned, get_owned_document, get_owned_document_lem,
}
use cross_format_documment.Versions.Store.{
  Serializer, DocumentVersion, Store, find_version, newest_id, from_dict,
}
use cross_format_documment.Versions.Routes.{
  current_id, parent_of, is_child_of, undo_target, redo_target, load_latest,
}
use cross_format_documment.Versions.Rows.{newest_id-row}
use cross_format_documment.Versions.Sound.{IsFaithful, Sound, some-injective}

and_left : (a b : Bool) → a && b ≡ true → a ≡ true
and_left true b h = refl
and_left false b h = cc

module _ {J : Type 0} where
  pub current_id-reply :
      (store : Store J) (doc_id : String) (actor : Actor) (c : String)
      → current_id store doc_id actor ≡ reply c
      → (d : Document) × (store.docs doc_id ≡ some d)
        × Owned d actor
        × (d.current_version_id ≡ some c)
  unfolding current_id
  current_id-reply store doc_id actor c h =
      let (d, e, h') =
        >>=-eq-reply (get_owned_document store.docs doc_id actor)
          (λ d. found d.current_version_id 404) h in
      let (row, owned) = (get_owned_document_lem store.docs doc_id actor d).0.0 e in
      (d, row, owned, found-some d.current_version_id 404 h')

module _ {J : Type 0} (s : Serializer J) where
  -- The version that `undo` goes to is a row of the document.
  pub undo_target-row :
      (store : Store J) (doc_id : String) (actor : Actor) (p : String)
      → Sound s store.docs store.versions
      → undo_target store doc_id actor ≡ reply p
      → (w : DocumentVersion J) × (find_version store.versions p ≡ some w)
        × (w.document_id ≡ doc_id)
  unfolding undo_target
  undo_target-row store doc_id actor p h e =
      let (c, at, e') =
        >>=-eq-reply (current_id store doc_id actor)
          (λ c. found (parent_of (find_version store.versions c)) 409) e in
      let (d, row, owned, current) = current_id-reply store doc_id actor c at in
      let (v, known, same) = h.current doc_id d c row current in
      let up : v.parent_id ≡ some p =
        ap parent_of (sym known) ∙ found-some (parent_of (find_version store.versions c)) 409 e' in
      let (w, found, also) = (h.rows c v known).parent p up in (w, found, also ∙ same)

  -- So is the one that `redo` goes to.
  pub redo_target-row :
      (store : Store J) (doc_id : String) (actor : Actor) (p : String)
      → Sound s store.docs store.versions
      → redo_target store doc_id actor ≡ reply p
      → (w : DocumentVersion J) × (find_version store.versions p ≡ some w)
        × (w.document_id ≡ doc_id)
  unfolding redo_target
  redo_target-row store doc_id actor p h e =
      let (c, at, e') =
        >>=-eq-reply (current_id store doc_id actor)
          (λ c. found (newest_id (keep (is_child_of doc_id c) store.versions)) 409) e in
      let newest : newest_id (keep (is_child_of doc_id c) store.versions) ≡ some p =
        found-some (newest_id (keep (is_child_of doc_id c) store.versions)) 409 e' in
      let (w, row, child) = newest_id-row (is_child_of doc_id c) store.versions p h.keyed newest in
      (w, row, text_eq w.document_id doc_id (and_left _ _ child))

  -- What a load is made of: the current version, its row, and a valid model in it.
  pub load_latest-inverts :
      (store : Store J) (doc_id : String) (actor : Actor) (c : String) (doc : CanonicalDocument)
      → load_latest s store doc_id actor ≡ reply (c, doc)
      → (v : DocumentVersion J) × (current_id store doc_id actor ≡ reply c)
        × (find_version store.versions c ≡ some v)
        × (from_dict s v.model ≡ some doc)
  unfolding load_latest
  load_latest-inverts store doc_id actor c doc e =
      let read = λ (c : String) (v : DocumentVersion J).
        found (from_dict s v.model) 500 >>= λ doc. reply (c, doc) in
      let (c', at, e1) =
        >>=-eq-reply (current_id store doc_id actor)
          (λ c. found (find_version store.versions c) 404 >>= λ v. read c v) e in
      let (v, known, e2) =
        found-eq-reply (find_version store.versions c') 404 (λ v. read c' v) e1 in
      let (model, valid, same) =
        found-eq-reply (from_dict s v.model) 500 (λ doc. reply (c', doc)) e2 in
      let answer : (c', model) ≡ (c, doc) = reply-injective same in
      let same_c : c' ≡ c = ap (λ x. x.0) answer in
      (
        v,
        at ∙ ap (λ x. reply x) same_c,
        ap (find_version store.versions) (sym same_c) ∙ known,
        valid ∙ ap (λ x. some x.1) answer,
      )

  -- The latest model of a document is a document of its id.
  pub load_latest-Sound :
      (faithful : IsFaithful s) (store : Store J) (doc_id : String) (actor : Actor) (c : String)
      (doc : CanonicalDocument)
      → Sound s store.docs store.versions
      → load_latest s store doc_id actor ≡ reply (c, doc)
      → doc.doc_id ≡ doc_id
  unfolding from_dict
  load_latest-Sound faithful store doc_id actor c doc h e =
      let (v, at, known, valid) = load_latest-inverts store doc_id actor c doc e in
      let (d, row, owned, current) = current_id-reply store doc_id actor c at in
      let (w, there, own) = h.current doc_id d c row current in
      let same_row : w ≡ v = some-injective (sym there ∙ known) in
      some-injective (sym (faithful.validated v.model doc valid) ∙ (h.rows c v known).owned)
      ∙ ap (λ (x : DocumentVersion J). x.document_id) (sym same_row)
      ∙ own
