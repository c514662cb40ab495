-- ===== src/Versions/Reached.antt =====
-- The stores that requests can reach, and that each of them is sound.
use cross_format_documment.Base.{
  ℕ, String, Option, some, Bool, List, ◌≡◌, refl, ap, subst, ◌∙◌, Bool-cases, inl, inr,
}
use cross_format_documment.Base.Result.{
  Result, ok, err, Error, key_error, value_error, type_error, index_error, validation_error,
  diverges, ok-injective,
}
use cross_format_documment.Base.Http.{Http, reply, fail}
use cross_format_documment.Model.{Value, CanonicalDocument}
use cross_format_documment.Access.Owner.{Actor}
use cross_format_documment.Patch.Op.{Env}
use cross_format_documment.Patch.Execute.{Applied, apply}
use cross_format_documment.Patch.Frame.Fixed.{Fixed}
use cross_format_documment.Patch.Frame.{apply_keeps_frame}
use cross_format_documment.Versions.Store.{Serializer, Store}
use cross_format_documment.Versions.Routes.{
  load_latest, undo, redo, delete_document, persist_document,
}
use cross_format_documment.Versions.Edits.{
  ReversiblePatch, PatchRequest, PatchResponse, is_nil, apply_and_commit, commit_applied, prepare,
  run_patch, run_prepared, put_applied, refused, finish_patch, create_patch,
}
use cross_format_documment.Versions.Checked.{prepare-inverts}
use cross_format_documment.Versions.Sound.{IsFaithful}
use cross_format_documment.Versions.Loaded.{load_latest-Sound}
use cross_format_documment.Versions.Kept.{
  StoreSound, put_version-Sound, undo-Sound, redo-Sound, persist_document-Sound,
  delete_document-Sound,
}

-- What `create_patch` takes from the settings and from the language model.
pub record Service (D : Type 0) : Type 0 where
  pub ai_enabled : Bool
  pub interpret : CanonicalDocument → String → ReversiblePatch D

module _ {J D : Type 0} (s : Serializer J) (env : Env D) (service : Service D) where
  -- One request that changes rows, whatever its arguments.
  infix 40 ◌⟶◌ ◌⟶*◌
  pub data ◌⟶◌ : Store J → Store J → Type 0 where
    ingested :
        {store : Store J} (doc : CanonicalDocument) (who : String)
        → store ⟶ (persist_document s store doc who).0
    undone :
        {store : Store J} (doc_id : String) (actor : Actor) → store ⟶ (undo s store doc_id actor).0
    redone :
        {store : Store J} (doc_id : String) (actor : Actor) → store ⟶ (redo s store doc_id actor).0
    deleted :
        {store : Store J} (doc_id : String) (actor : Actor)
        → store ⟶ (delete_document s store doc_id actor).0
    patched :
        {store after : Store J} (new_id : String) (drawn : ℕ) (doc_id : String)
        (body : PatchRequest D) (actor : Actor) (answer : Http PatchResponse)
        → create_patch s env service.ai_enabled service.interpret new_id drawn store doc_id body
            actor
          ≡ ok (after, answer)
        → store ⟶ after
    edited :
        {store after : Store J} (drawn : ℕ) (doc_id version_id : String)
        (doc updated : CanonicalDocument) (patch : ReversiblePatch D) (actor : Actor)
        (event : String) (detail : List (String × Value)) (new_version : Option String)
        → load_latest s store doc_id actor ≡ reply (version_id, doc)
        → apply_and_commit s env drawn store doc_id doc patch actor event detail
          ≡ ok (after, new_version, updated)
        → store ⟶ after

  pub data ◌⟶*◌ : Store J → Store J → Type 0 where
    here : {store : Store J} → store ⟶* store
    more : {a b c : Store J} → a ⟶* b → b ⟶ c → a ⟶* c

refused_store :
    {J : Type 0} (store : Store J) (e : Error) (after : Store J) (answer : Http PatchResponse)
    → refused store e ≡ ok (after, answer)
    → store ≡ after
refused_store store key_error after answer h = cc
refused_store store value_error after answer h = cc
refused_store store type_error after answer h = cc
refused_store store index_error after answer h = cc
refused_store store validation_error after answer h = cc
refused_store store diverges after answer h = cc

module _ {J D : Type 0} (s : Serializer J) (faithful : IsFaithful s) (env : Env D)
    (service : Service D) where
  -- Where the document is the store's, what `apply` makes of it has its id.
  applied_id :
      (k : ℕ) (doc : CanonicalDocument) (patch : ReversiblePatch D) (done : Applied D)
      → apply env k doc patch.patches ≡ ok done
      → done.doc.doc_id ≡ doc.doc_id
  applied_id k doc patch done h =
      ap (λ (x : Fixed). x.doc_id) (apply_keeps_frame env k doc patch.patches done h)

  put_applied-Sound :
      (store : Store J) (doc_id : String) (body : PatchRequest D) (patch : ReversiblePatch D)
      (result : Result (Applied D)) (after : Store J) (answer : Http PatchResponse)
      → ((done : Applied D) → result ≡ ok done → done.doc.doc_id ≡ doc_id)
      → StoreSound s store
      → put_applied s env store doc_id body patch result ≡ ok (after, answer)
      → StoreSound s after
  unfolding finish_patch put_applied
  put_applied-Sound store doc_id body patch (err e) after answer same h r =
      subst (StoreSound s) (refused_store store e after answer r) h
  put_applied-Sound store doc_id body patch (ok done) after answer same h r =
      subst (StoreSound s) (ap (λ x. x.0) (ok-injective r))
        (put_version-Sound s faithful store doc_id done.doc (some patch.id) (same done refl) h)

  run_patch-Sound :
      (k : ℕ) (store : Store J) (doc_id : String) (doc : CanonicalDocument) (body : PatchRequest D)
      (patch : ReversiblePatch D) (after : Store J) (answer : Http PatchResponse)
      → doc.doc_id ≡ doc_id
      → StoreSound s store
      → run_patch s env k store doc_id doc body patch ≡ ok (after, answer)
      → StoreSound s after
  unfolding run_patch finish_patch
  run_patch-Sound k store doc_id doc body patch after answer same h r =
      elim (Bool-cases (is_nil patch.patches)) [
        | inl nothing ↦ subst (StoreSound s) (ap (λ x. x.0) (ok-injective (rw nothing at r))) h
        | inr some_ops ↦
            put_applied-Sound store doc_id body patch (apply env k doc patch.patches) after answer
              (λ done e. applied_id k doc patch done e ∙ same) h (rw some_ops at r)
      ]

  run_prepared-Sound :
      (k : ℕ) (store : Store J) (doc_id : String) (body : PatchRequest D)
      (prepared : Http (CanonicalDocument × ReversiblePatch D)) (after : Store J)
      (answer : Http PatchResponse)
      → ((doc : CanonicalDocument) (patch : ReversiblePatch D)
          → prepared ≡ reply (doc, patch)
          → doc.doc_id ≡ doc_id)
      → StoreSound s store
      → run_prepared s env k store doc_id body prepared ≡ ok (after, answer)
      → StoreSound s after
  unfolding run_prepared
  run_prepared-Sound k store doc_id body (fail c) after answer same h r =
      subst (StoreSound s) (ap (λ x. x.0) (ok-injective r)) h
  run_prepared-Sound k store doc_id body (reply (doc, patch)) after answer same h r =
      run_patch-Sound k store doc_id doc body patch after answer (same doc patch refl) h r

  create_patch-Sound :
      (new_id : String) (k : ℕ) (store : Store J) (doc_id : String) (body : PatchRequest D)
      (actor : Actor) (after : Store J) (answer : Http PatchResponse)
      → StoreSound s store
      → create_patch s env service.ai_enabled service.interpret new_id k store doc_id body actor
        ≡ ok (after, answer)
      → StoreSound s after
  unfolding create_patch
  create_patch-Sound new_id k store doc_id body actor after answer h r =
      run_prepared-Sound k store doc_id body
        (prepare s env service.ai_enabled service.interpret new_id store doc_id body actor) after
        answer
        (λ doc patch e.
          let (c, loaded, _) =
            prepare-inverts s env service.ai_enabled service.interpret new_id store doc_id body
              actor doc patch e in
          load_latest-Sound s faithful store doc_id actor c doc h loaded)
        h r

  commit_applied-Sound :
      (store : Store J) (doc_id : String) (patch : ReversiblePatch D) (actor : Actor)
      (event : String) (detail : List (String × Value)) (result : Result (Applied D))
      (after : Store J) (v : Option String) (updated : CanonicalDocument)
      → ((done : Applied D) → result ≡ ok done → done.doc.doc_id ≡ doc_id)
      → StoreSound s store
      → commit_applied s env store doc_id patch actor event detail result ≡ ok (after, v, updated)
      → StoreSound s after
  unfolding commit_applied
  commit_applied-Sound store doc_id patch actor event detail (err e) after v updated same h r = cc
  commit_applied-Sound store doc_id patch actor event detail (ok done) after v updated same h r =
      subst (StoreSound s) (ap (λ x. x.0) (ok-injective r))
        (put_version-Sound s faithful store doc_id done.doc (some patch.id) (same done refl) h)

  apply_and_commit-Sound :
      (k : ℕ) (store : Store J) (doc_id : String) (doc : CanonicalDocument)
      (patch : ReversiblePatch D) (actor : Actor) (event : String) (detail : List (String × Value))
      (after : Store J) (v : Option String) (updated : CanonicalDocument)
      → doc.doc_id ≡ doc_id
      → StoreSound s store
      → apply_and_commit s env k store doc_id doc patch actor event detail ≡ ok (after, v, updated)
      → StoreSound s after
  unfolding apply_and_commit
  apply_and_commit-Sound k store doc_id doc patch actor event detail after v updated same h r =
      elim (Bool-cases (is_nil patch.patches)) [
        | inl nothing ↦ subst (StoreSound s) (ap (λ x. x.0) (ok-injective (rw nothing at r))) h
        | inr some_ops ↦
            commit_applied-Sound store doc_id patch actor event detail
              (apply env k doc patch.patches) after v updated
              (λ done e. applied_id k doc patch done e ∙ same) h (rw some_ops at r)
      ]

  step-Sound : (a b : Store J) → ◌⟶◌ s env service a b → StoreSound s a → StoreSound s b
  step-Sound a _ (ingested doc who) h = persist_document-Sound s faithful a doc who h
  step-Sound a _ (undone doc_id actor) h = undo-Sound s faithful a doc_id actor h
  step-Sound a _ (redone doc_id actor) h = redo-Sound s faithful a doc_id actor h
  step-Sound a _ (deleted doc_id actor) h = delete_document-Sound s faithful a doc_id actor h
  step-Sound a b (patched new_id k doc_id body actor answer e) h =
      create_patch-Sound new_id k a doc_id body actor b answer h e
  step-Sound a b (edited k doc_id c doc updated patch actor event detail v loaded e) h =
      apply_and_commit-Sound k a doc_id doc patch actor event detail b v updated
        (load_latest-Sound s faithful a doc_id actor c doc h loaded) h e

  -- With a hash that leaves `content_hash` out and tells values of different ids apart, and with ids
  -- that are written and read as they are: after any requests, uploads, patches, edits, undoes,
  -- redoes and deletions in any order, on sound rows, they are sound: each version stands under the
  -- hash of the value it holds, which has the id of its document, its parent is a row of the same
  -- document, and the current version of a document is one of its own.
  pub requests_keep_sound :
      (a b : Store J) → ◌⟶*◌ s env service a b → StoreSound s a → StoreSound s b
  requests_keep_sound a _ here h = h
  requests_keep_sound a c (more {b = b} run step) h =
      step-Sound b c step (requests_keep_sound a b run h)
