-- ===== src/Versions/Checked.antt =====
-- What `create_patch` leaves where it refuses, and what it prepares.
use cross_format_documment.Base.{ℕ, String, Bool, ◌≡◌, sym, ◌∙◌, ap, subst, Bool-cases, inl, inr}
use cross_format_documment.Base.Result.{
  Result, ok, err, Error, key_error, value_error, type_error, index_error, validation_error,
  diverges, ok-injective,
}
use cross_format_documment.Base.Http.{
  Http, reply, fail, ◌>>=◌, >>=-eq-reply, reply-injective, fail≢reply,
}
use cross_format_documment.Model.{CanonicalDocument}
use cross_format_documment.Access.Owner.{Actor}
use cross_format_documment.Patch.Op.{Env}
use cross_format_documment.Patch.Execute.{Applied, apply}
use cross_format_documment.Versions.Store.{Serializer, Store}
use cross_format_documment.Versions.Routes.{load_latest}
use cross_format_documment.Versions.Edits.{
  ReversiblePatch, PatchRequest, is_nil, resolve_ops, prepare, refused, finish_patch, put_applied,
  run_patch, run_prepared, create_patch,
}

refused_store :
    {J : Type 0} (store : Store J) (e : Error) (after : Store J) (c : ℕ)
    → refused store e ≡ ok (after, fail c)
    → after ≡ store
refused_store store key_error after c h = ap (λ x. x.0) (sym (ok-injective h))
refused_store store value_error after c h = ap (λ x. x.0) (sym (ok-injective h))
refused_store store type_error after c h = ap (λ x. x.0) (sym (ok-injective h))
refused_store store index_error after c h = ap (λ x. x.0) (sym (ok-injective h))
refused_store store validation_error after c h = ap (λ x. x.0) (sym (ok-injective h))
refused_store store diverges after c h = cc

module _ {J D : Type 0} (s : Serializer J) (env : Env D) (ai_enabled : Bool)
    (interpret : CanonicalDocument → String → ReversiblePatch D) where
  put_applied_failed :
      (store : Store J) (doc_id : String) (body : PatchRequest D) (patch : ReversiblePatch D)
      (result : Result (Applied D)) (after : Store J) (c : ℕ)
      → put_applied s env store doc_id body patch result ≡ ok (after, fail c)
      → after ≡ store
  unfolding put_applied finish_patch
  put_applied_failed store doc_id body patch (err e) after c h = refused_store store e after c h
  put_applied_failed store doc_id body patch (ok done) after c h = cc

  run_prepared_failed :
      (k : ℕ) (store : Store J) (doc_id : String) (body : PatchRequest D)
      (prepared : Http (CanonicalDocument × ReversiblePatch D)) (after : Store J) (c : ℕ)
      → run_prepared s env k store doc_id body prepared ≡ ok (after, fail c)
      → after ≡ store
  unfolding run_prepared run_patch finish_patch
  run_prepared_failed k store doc_id body (fail e) after c h = ap (λ x. x.0) (sym (ok-injective h))
  run_prepared_failed k store doc_id body (reply (doc, patch)) after c h =
      elim (Bool-cases (is_nil patch.patches)) [
        | inl nothing ↦ absurd (fail≢reply (ap (λ x. x.1) (sym (ok-injective (rw nothing at h)))))
        | inr some_ops ↦
            put_applied_failed store doc_id body patch (apply env k doc patch.patches) after c
              (rw some_ops at h)
      ]

  -- A request for edits that is answered with an error leaves every row as it was: documents,
  -- versions and audit log.
  pub failed_patch_changes_nothing :
      (new_id : String) (k : ℕ) (store : Store J) (doc_id : String) (body : PatchRequest D)
      (actor : Actor) (after : Store J) (c : ℕ)
      → create_patch s env ai_enabled interpret new_id k store doc_id body actor
        ≡ ok (after, fail c)
      → after ≡ store
  unfolding create_patch
  failed_patch_changes_nothing new_id k store doc_id body actor after c h =
      run_prepared_failed k store doc_id body
        (prepare s env ai_enabled interpret new_id store doc_id body actor) after c h

  -- What was prepared is the latest version of the document, and the patch for it.
  pub prepare-inverts :
      (new_id : String) (store : Store J) (doc_id : String) (body : PatchRequest D) (actor : Actor)
      (doc : CanonicalDocument) (patch : ReversiblePatch D)
      → prepare s env ai_enabled interpret new_id store doc_id body actor ≡ reply (doc, patch)
      → (v : String) × (load_latest s store doc_id actor ≡ reply (v, doc))
        × (resolve_ops s env ai_enabled interpret new_id doc_id doc body ≡ reply patch)
  unfolding prepare
  prepare-inverts new_id store doc_id body actor doc patch e =
      let resolve = resolve_ops s env ai_enabled interpret new_id doc_id in
      let (latest, loaded, e') =
        >>=-eq-reply (load_latest s store doc_id actor)
          (λ latest. resolve latest.1 body >>= λ patch. reply (latest.1, patch)) e in
      let (p, resolved, same) =
        >>=-eq-reply (resolve latest.1 body) (λ patch. reply (latest.1, patch)) e' in
      let answer : (latest.1, p) ≡ (doc, patch) = reply-injective same in
      let same_doc : latest.1 ≡ doc = ap (λ x. x.0) answer in
      (
        latest.0,
        loaded ∙ ap (λ d. reply (latest.0, d)) same_doc,
        subst (λ d. resolve d body ≡ reply patch) same_doc
            (resolved ∙ ap (λ q. reply q) (ap (λ x. x.1) answer)),
      )
