-- ===== src/Versions/Edits.antt =====
-- api/_apply.py, api/patch_security.py and the routes of api/routes_patches.py (backend/src/docos) that
-- apply a patch and commit what it gives.
use cross_format_documment.Base.{
  ℕ, String, ◌==◌, Option, none, some, Bool, true, false, not, ◌&&◌, List, [], ◌∷◌, ◌++◌,
  if◌then◌else◌,
}
use cross_format_documment.Base.Lists.{all_of, contains}
use cross_format_documment.Base.Maps.{has}
use cross_format_documment.Base.Result.{
  Result, ok, err, Error, key_error, value_error, validation_error, diverges,
}
use cross_format_documment.Base.Http.{Http, reply, fail, guard, ◌>>=◌, ◌>>◌}
use cross_format_documment.Base.Text.{join}
use cross_format_documment.Base.Prefix.{starts_with, split}
use cross_format_documment.Model.{Value, str, flag, CanonicalDocument}
use cross_format_documment.Patch.Op.{Env, Patch}
use cross_format_documment.Patch.Execute.{apply, Applied}
use cross_format_documment.Access.Owner.{Actor}
use cross_format_documment.Approvals.Workflow.{actor_name}
use cross_format_documment.Versions.Store.{
  Serializer, Store, record_event, with_content_hash, put_version,
}
use cross_format_documment.Versions.Routes.{load_latest}

-- The parts of a `ReversiblePatch` that the routes read; `inverse` is recorded by `apply`.
pub record ReversiblePatch (D : Type 0) : Type 0 where
  pub id : String
  pub patches : List (Patch D)
  pub intent : Option String

abbrev pub is_nil {ℓ} : {A : Type ℓ} → List A → Bool
is_nil [] = true
is_nil (x ∷ xs) = false

-- `op.target_id`
abbrev pub target_id : {D : Type 0} → Patch D → Option String
target_id (Patch.set_text t v) = t
target_id (Patch.update_node t p) = t
target_id (Patch.retag t tags) = t
target_id (Patch.redact t) = t
target_id (Patch.unredact t) = t
target_id (Patch.sanitize_metadata keys) = none
target_id (Patch.restore_metadata c w) = none
target_id (Patch.remove_node t) = t
target_id (Patch.add_node t p) = t
target_id (Patch.duplicate_node t p i) = t
target_id (Patch.duplicate_page t p i) = t
target_id (Patch.insert_table_row t i ns c vs) = t
target_id (Patch.delete_table_row t r i) = t
target_id (Patch.insert_table_col t i cs vs) = t
target_id (Patch.delete_table_col t i ids) = t
target_id (Patch.set_table_cell t p) = t
target_id (Patch.insert_image t p) = t
target_id (Patch.replace_image t p) = t
target_id (Patch.set_image_attrs t p) = t
target_id (Patch.insert_link t h l) = t
target_id (Patch.set_list_attrs t o) = t
target_id (Patch.set_page_attrs t p) = t
target_id (Patch.move_node t p i) = t

-- `op.op in _TARGETED_OPS`
abbrev pub is_targeted : {D : Type 0} → Patch D → Bool
is_targeted (Patch.sanitize_metadata keys) = false
is_targeted (Patch.restore_metadata c w) = false
is_targeted (Patch.add_node t p) = false
is_targeted (Patch.insert_image t p) = false
is_targeted op = true

-- The test of one operation before it may be applied to the document. Metadata operations have no
-- target here.
unfoldable pub has_target : {D : Type 0} → CanonicalDocument → Patch D → Bool
has_target doc op = elim (target_id op) [ none ↦ not (is_targeted op) | some t ↦ has doc.nodes t ]

-- The `blob_ref` of a payload that names one: none where the key is not there.
abbrev pub value_at : List (String × Value) → String → Option Value
value_at [] k = none
value_at ((j, v) ∷ items) k = let later = value_at items k in if j == k then some v else later

abbrev pub blob_ref : {D : Type 0} → Patch D → Option Value
blob_ref (Patch.insert_image t p) = elim p.blob_ref [ none ↦ none | some r ↦ some (str r) ]
blob_ref (Patch.replace_image t p) = value_at p.fields "blob_ref"
blob_ref (Patch.set_image_attrs t p) = value_at p.fields "blob_ref"
blob_ref op = none

-- The reference is a text in the document's folder that does not climb out of it.
unfoldable pub is_own_asset : String → Value → Bool
unfolding starts_with split
is_own_asset doc_id (str ref) =
    starts_with (join "assets/" (join doc_id "/")) ref && not (contains ".." (split "/" ref))
is_own_asset doc_id v = false

abbrev pub has_own_asset : {D : Type 0} → String → Patch D → Bool
unfolding is_own_asset
has_own_asset doc_id op = elim (blob_ref op) [ none ↦ true | some v ↦ is_own_asset doc_id v ]

unfoldable pub validate_image_blob_refs : {D : Type 0} → String → List (Patch D) → Http (Unit {0})
unfolding is_own_asset
validate_image_blob_refs doc_id ops = guard (all_of (has_own_asset doc_id) ops) 422

-- A request for edits, and the answer to it.
pub record PatchRequest (D : Type 0) : Type 0 where
  pub ops : List (Patch D)
  pub instruction : Option String

pub record PatchResponse : Type 0 where
  pub doc_id : String
  pub patch_id : String
  pub applied : Bool
  pub new_version_id : Option String
  pub intent : Option String

-- What a route leaves: the rows, and the answer. Code that never ends leaves no answer.
abbrev pub Outcome {ℓ} : Type 0 → Type ℓ → Type ℓ
Outcome J A = Result (Store J × Http A)

abbrev pub log_edit :
    {J : Type 0} → Store J → String → String → String → List (String × Value) → Store J
log_edit store doc_id action who detail =
    record_event store
      (record { document_id = some doc_id; action = action; actor = who; detail = detail })

-- `except (KeyError, ValueError)`: a failed validation is a `ValueError`; the rest is not caught.
abbrev pub refused : {J : Type 0} → Store J → Error → Outcome J PatchResponse
refused store key_error = ok (store, fail 422)
refused store value_error = ok (store, fail 422)
refused store validation_error = ok (store, fail 422)
refused store diverges = err diverges
refused store e = ok (store, fail 500)

module _ {J D : Type 0} (s : Serializer J) (env : Env D) where
  -- What `apply_and_commit` stores and returns for the document that the executor made.
  unfoldable pub commit_applied :
      Store J
      → String
      → ReversiblePatch D
      → Actor
      → String
      → List (String × Value)
      → Result (Applied D)
      → Result (Store J × Option String × CanonicalDocument)
  unfolding put_version
  commit_applied store doc_id patch actor event detail (err e) = err e
  commit_applied store doc_id patch actor event detail (ok done) =
      let stored = put_version s store doc_id done.doc (some patch.id) in
      ok (
        log_edit stored.0 doc_id event (actor_name actor)
            (detail ++ ("patch_id", str patch.id) ∷ ("applied", flag true) ∷ []),
        some stored.1,
        with_content_hash done.doc stored.1,
      )

  -- `apply_and_commit`; an exception of the executor reaches its caller.
  unfoldable pub apply_and_commit :
      ℕ
      → Store J
      → String
      → CanonicalDocument
      → ReversiblePatch D
      → Actor
      → String
      → List (String × Value)
      → Result (Store J × Option String × CanonicalDocument)
  unfolding apply commit_applied
  apply_and_commit drawn store doc_id doc patch actor event detail =
      let updated : Result (Applied D) = apply env drawn doc patch.patches in
      if is_nil patch.patches
      then ok (
        log_edit store doc_id event (actor_name actor) (detail ++ ("applied", flag false) ∷ []),
        none,
        doc,
      )
      else commit_applied store doc_id patch actor event detail updated

  -- The patch of a request: its operations, checked, or what `interpret` makes of the instruction.
  unfoldable pub resolve_ops :
      Bool
      → (CanonicalDocument → String → ReversiblePatch D)
      → String
      → String
      → CanonicalDocument
      → PatchRequest D
      → Http (ReversiblePatch D)
  unfolding has_target validate_image_blob_refs
  resolve_ops ai_enabled interpret new_id doc_id doc body =
      if is_nil body.ops
      then (do
        guard ai_enabled 501
        reply (interpret doc (elim body.instruction [ none ↦ "" | some text ↦ text ])))
      else (do
        guard (all_of (has_target doc) body.ops) 422
        validate_image_blob_refs doc_id body.ops
        reply (record { id = new_id; patches = body.ops; intent = body.instruction }))

  -- What `create_patch` stores and answers for a patch that was applied, or has nothing to apply.
  unfoldable pub finish_patch :
      Store J
      → String
      → PatchRequest D
      → ReversiblePatch D
      → Option String
      → Store J × Http PatchResponse
  finish_patch store doc_id body patch new_version_id = (
    log_edit store doc_id "patch.created" "api" (
        ("patch_id", str patch.id)
        ∷ ("applied", flag (not (is_nil patch.patches)))
        ∷ ("intent", elim patch.intent [ none ↦ Value.null | some text ↦ str text ])
        ∷ ("explicit", flag (not (is_nil body.ops)))
        ∷ []),
    reply (record {
      doc_id = doc_id;
      patch_id = patch.id;
      applied = not (is_nil patch.patches);
      new_version_id = new_version_id;
      intent = patch.intent;
    }),
  )

  unfoldable pub put_applied :
      Store J
      → String
      → PatchRequest D
      → ReversiblePatch D
      → Result (Applied D)
      → Outcome J PatchResponse
  unfolding put_version finish_patch
  put_applied store doc_id body patch (err e) = refused store e
  put_applied store doc_id body patch (ok done) =
      let stored = put_version s store doc_id done.doc (some patch.id) in
      ok (finish_patch stored.0 doc_id body patch (some stored.1))

  unfoldable pub run_patch :
      ℕ
      → Store J
      → String
      → CanonicalDocument
      → PatchRequest D
      → ReversiblePatch D
      → Outcome J PatchResponse
  unfolding apply put_applied finish_patch
  run_patch drawn store doc_id doc body patch =
      let updated : Result (Applied D) = apply env drawn doc patch.patches in
      if is_nil patch.patches
      then ok (finish_patch store doc_id body patch none)
      else put_applied store doc_id body patch updated

  -- The patch of a request on the latest version of the document.
  unfoldable pub prepare :
      Bool
      → (CanonicalDocument → String → ReversiblePatch D)
      → String
      → Store J
      → String
      → PatchRequest D
      → Actor
      → Http (CanonicalDocument × ReversiblePatch D)
  unfolding load_latest resolve_ops
  prepare ai_enabled interpret new_id store doc_id body actor = do
    latest ← load_latest s store doc_id actor
    patch ← resolve_ops ai_enabled interpret new_id doc_id latest.1 body
    reply (latest.1, patch)

  -- The rest of `create_patch` once the request was checked.
  unfoldable pub run_prepared :
      ℕ
      → Store J
      → String
      → PatchRequest D
      → Http (CanonicalDocument × ReversiblePatch D)
      → Outcome J PatchResponse
  unfolding run_patch
  run_prepared drawn store doc_id body (fail c) = ok (store, fail c)
  run_prepared drawn store doc_id body (reply (doc, patch)) =
      run_patch drawn store doc_id doc body patch

  unfoldable pub create_patch :
      Bool
      → (CanonicalDocument → String → ReversiblePatch D)
      → String
      → ℕ
      → Store J
      → String
      → PatchRequest D
      → Actor
      → Outcome J PatchResponse
  unfolding prepare run_prepared
  create_patch ai_enabled interpret new_id drawn store doc_id body actor =
      run_prepared drawn store doc_id body
        (prepare ai_enabled interpret new_id store doc_id body actor)
