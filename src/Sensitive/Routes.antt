-- ===== src/Sensitive/Routes.antt =====
-- `scan_sensitive` and `redact_sensitive` of api/routes_patches.py (backend/src/docos).
use cross_format_documment.Base.{ℕ, String, Option, some, List, [], ◌∷◌, map}
use cross_format_documment.Base.Int.{pos}
use cross_format_documment.Base.Lists.{length}
use cross_format_documment.Base.Result.{Result, ok, err, diverges}
use cross_format_documment.Base.Http.{Http, reply, fail}
use cross_format_documment.Model.{Value, str, int, Node, CanonicalDocument}
use cross_format_documment.Access.Owner.{Actor}
use cross_format_documment.Patch.Op.{Env, Patch}
use cross_format_documment.Versions.Store.{Serializer, Store}
use cross_format_documment.Versions.Routes.{load_latest}
use cross_format_documment.Versions.Edits.{ReversiblePatch, PatchResponse, Outcome}
use cross_format_documment.Batches.Commit.{commit_batch}
use cross_format_documment.Sensitive.Scan.{
  Detectors, SensitiveFinding, redaction_node_ids, summarize,
}
use cross_format_documment.Sensitive.Presidio.{Analyzer, scan}

pub record SensitiveScanResponse : Type 0 where
  pub doc_id : String
  pub findings : List SensitiveFinding
  pub summary : List (String × ℕ)
  pub node_count : ℕ

-- The operations of the patch.
abbrev pub redact_ops : {D : Type 0} → List String → List (Patch D)
redact_ops ids = map (λ i. Patch.redact (some i)) ids

-- `values` gives the nodes of a registry in their order.
module _ {J : Type 0} (s : Serializer J) (detectors : Detectors) (rounds : ℕ)
    (engine : Option Analyzer) (values : CanonicalDocument → List Node) where
  abbrev pub scan_answer :
      Store J → String → Result (List SensitiveFinding) → Outcome J SensitiveScanResponse
  unfolding redaction_node_ids summarize
  scan_answer store doc_id (err diverges) = err diverges
  scan_answer store doc_id (err e) = ok (store, fail 500)
  scan_answer store doc_id (ok findings) = ok (
    store,
    reply (record {
      doc_id = doc_id;
      findings = findings;
      summary = summarize findings;
      node_count = length (redaction_node_ids findings);
    }),
  )

  abbrev pub scan_latest :
      Store J → String → Http (String × CanonicalDocument) → Outcome J SensitiveScanResponse
  unfolding scan scan_answer
  scan_latest store doc_id (fail c) = ok (store, fail c)
  scan_latest store doc_id (reply (v, doc)) =
      scan_answer store doc_id (scan detectors rounds engine doc (values doc))

  -- `scan_sensitive`
  unfoldable pub scan_sensitive : Store J → String → Actor → Outcome J SensitiveScanResponse
  unfolding load_latest scan_latest
  scan_sensitive store doc_id actor = scan_latest store doc_id (load_latest s store doc_id actor)

-- `categories` is the counts as a value, and `intent_of` the text with the number of nodes in it.
module _ {J D : Type 0} (s : Serializer J) (env : Env D) (detectors : Detectors) (rounds : ℕ)
    (engine : Option Analyzer) (values : CanonicalDocument → List Node)
    (categories : List (String × ℕ) → Value) (intent_of : ℕ → String) where
  unfoldable pub commit_redactions :
      ℕ
      → String
      → Store J
      → String
      → CanonicalDocument
      → Result (List SensitiveFinding)
      → Outcome J PatchResponse
  unfolding commit_batch redaction_node_ids summarize
  commit_redactions drawn patch_id store doc_id doc (err diverges) = err diverges
  commit_redactions drawn patch_id store doc_id doc (err e) = ok (store, fail 500)
  commit_redactions drawn patch_id store doc_id doc (ok findings) =
      let ids = redaction_node_ids findings in
      let patch : ReversiblePatch D = record {
        id = patch_id;
        patches = redact_ops ids;
        intent = some (intent_of (length ids));
      } in
      commit_batch s env drawn store doc_id doc patch "sensitive.redacted" (
        ("patch_id", str patch_id)
        ∷ ("node_count", int (pos (length ids)))
        ∷ ("categories", categories (summarize findings))
        ∷ [])

  unfoldable pub redact_latest :
      ℕ → String → Store J → String → Http (String × CanonicalDocument) → Outcome J PatchResponse
  unfolding scan commit_redactions
  redact_latest drawn patch_id store doc_id (fail c) = ok (store, fail c)
  redact_latest drawn patch_id store doc_id (reply (v, doc)) =
      commit_redactions drawn patch_id store doc_id doc
        (scan detectors rounds engine doc (values doc))

  -- `redact_sensitive`
  unfoldable pub redact_sensitive : ℕ → String → Store J → String → Actor → Outcome J PatchResponse
  unfolding load_latest redact_latest
  redact_sensitive drawn patch_id store doc_id actor =
      redact_latest drawn patch_id store doc_id (load_latest s store doc_id actor)
