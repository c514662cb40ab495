-- ===== src/Batches/Commit.antt =====
-- What `sanitize_metadata`, `redact_sensitive` and `remediate_accessibility` share: a patch that the
-- code made is applied and committed if it has operations, and an event is recorded. `apply` is not
-- guarded here, so an exception is the answer 500.
use cross_format_documment.Base.{
  ℕ, String, Option, none, some, Bool, true, false, List, [], ◌∷◌, if◌then◌else◌,
}
use cross_format_documment.Base.Result.{Result, ok, err, diverges}
use cross_format_documment.Base.Http.{Http, reply, fail}
use cross_format_documment.Model.{Value, str, CanonicalDocument}
use cross_format_documment.Access.Owner.{Actor}
use cross_format_documment.Patch.Op.{Env, Patch}
use cross_format_documment.Patch.Execute.{Applied, apply}
use cross_format_documment.Versions.Store.{Serializer, Store, put_version}
use cross_format_documment.Versions.Routes.{load_latest}
use cross_format_documment.Versions.Edits.{
  ReversiblePatch, PatchResponse, Outcome, is_nil, log_edit,
}

-- The answer of these routes.
abbrev pub answer_of :
    {D : Type 0} → String → ReversiblePatch D → Bool → Option String → PatchResponse
answer_of doc_id patch applied new_version_id = record {
  doc_id = doc_id;
  patch_id = patch.id;
  applied = applied;
  new_version_id = new_version_id;
  intent = patch.intent;
}

module _ {J D : Type 0} (s : Serializer J) (env : Env D) where
  -- What is stored for the document that the executor made.
  unfoldable pub settle_batch :
      Store J
      → String
      → ReversiblePatch D
      → String
      → List (String × Value)
      → Result (Applied D)
      → Outcome J PatchResponse
  unfolding put_version
  settle_batch store doc_id patch event detail (err diverges) = err diverges
  settle_batch store doc_id patch event detail (err e) = ok (store, fail 500)
  settle_batch store doc_id patch event detail (ok done) =
      let stored = put_version s store doc_id done.doc (some patch.id) in
      ok (
        log_edit stored.0 doc_id event "api" detail,
        reply (answer_of doc_id patch true (some stored.1)),
      )

  unfoldable pub commit_batch :
      ℕ
      → Store J
      → String
      → CanonicalDocument
      → ReversiblePatch D
      → String
      → List (String × Value)
      → Outcome J PatchResponse
  unfolding apply settle_batch
  commit_batch drawn store doc_id doc patch event detail =
      let settled =
        settle_batch store doc_id patch event detail (apply env drawn doc patch.patches) in
      if is_nil patch.patches
      then ok (log_edit store doc_id event "api" detail, reply (answer_of doc_id patch false none))
      else settled

  -- The patch of `ProvenancePolicyServiceImpl.sanitize_metadata`
  abbrev pub sanitize_patch : String → ReversiblePatch D
  sanitize_patch patch_id = record {
    id = patch_id;
    patches = Patch.sanitize_metadata [] ∷ [];
    intent = some "sanitize embedded metadata";
  }

  -- The rest of `sanitize_metadata` behind the load of the latest version.
  abbrev pub sanitize_latest :
      ℕ → String → Store J → String → Http (String × CanonicalDocument) → Outcome J PatchResponse
  unfolding commit_batch
  sanitize_latest drawn patch_id store doc_id (fail c) = ok (store, fail c)
  sanitize_latest drawn patch_id store doc_id (reply (v, doc)) =
      commit_batch drawn store doc_id doc (sanitize_patch patch_id) "metadata.sanitized"
        (("patch_id", str patch_id) ∷ [])

  -- `sanitize_metadata`
  unfoldable pub sanitize_metadata : ℕ → String → Store J → String → Actor → Outcome J PatchResponse
  unfolding load_latest sanitize_latest
  sanitize_metadata drawn patch_id store doc_id actor =
      sanitize_latest drawn patch_id store doc_id (load_latest s store doc_id actor)
