-- ===== src/Health.antt =====
-- services/provenance/health.py (backend/src/docos): the health panel of a document.
pub mod Clean
mod Tests
use cross_format_documment.Base.{
  ℕ, ◌+◌, ◌*◌, String, ◌==◌, Option, none, some, Bool, true, false, not, ◌||◌, ◌&&◌, List, [], ◌∷◌,
  ◌++◌, if◌then◌else◌,
}
use cross_format_documment.Base.Lists.{any_of, all_of, keep}
use cross_format_documment.Base.Maps.{Map, get_or}
use cross_format_documment.Model.{
  Value, null, truthy, Node, NodeType, AccessibilityState, CanonicalDocument, attr, is_a,
}
use cross_format_documment.Patch.Fields.{risky_meta_keys}
use cross_format_documment.Diff.Blocks.{children_of}

-- A finding by its level and its code.
pub record HealthFinding : Type 0 where
  pub level : String
  pub code : String

-- The score is in hundredths.
pub record DocumentHealth : Type 0 where
  pub accessibility_score : ℕ
  pub metadata_risk : Bool
  pub has_pending_redactions : Bool
  pub signed : Bool
  pub ready_for_signing : Bool
  pub findings : List HealthFinding

abbrev pub is_nil {ℓ} : {A : Type ℓ} → List A → Bool
is_nil [] = true
is_nil (x ∷ xs) = false

abbrev pub lacks_alt : Node → Bool
lacks_alt n = is_a NodeType.image n && not (truthy (attr n "alt_text" null))

-- the ids of the images without a text, among the nodes of the registry
abbrev pub ids_of : List Node → List String
ids_of [] = []
ids_of (n ∷ nodes) = n.id ∷ ids_of nodes

unfoldable pub missing_alt : List Node → List String
unfolding truthy
missing_alt nodes = ids_of (keep lacks_alt nodes)

-- `reading_order is not None`
abbrev pub is_ordered : Node → Bool
is_ordered n = elim (attr n "reading_order" null) [ null ↦ false | _ ↦ true ]

-- How many of the four checks hold, in hundredths of all.
abbrev pub quarter : Bool → ℕ
quarter b = if b then 25 else 0

unfoldable pub score_of : CanonicalDocument → List Node → ℕ
unfolding missing_alt children_of
score_of doc nodes =
    quarter doc.accessibility.has_doc_title
    + quarter (doc.accessibility.tagged || any_of (λ n. not (is_nil n.tags)) nodes)
    + quarter (is_nil (missing_alt nodes))
    + quarter
        (doc.accessibility.reading_order_ok || all_of is_ordered (children_of doc doc.root_id))

unfoldable pub is_at_risk : CanonicalDocument → Bool
unfolding truthy
is_at_risk doc =
    not doc.redaction.metadata_sanitized
    && any_of (λ k. truthy (get_or doc.meta.custom k null)) risky_meta_keys

-- a finding that is appended where a test holds
abbrev pub finding_if : Bool → String → String → List HealthFinding
finding_if true level code = record { level = level; code = code } ∷ []
finding_if false level code = []

unfoldable pub issues : CanonicalDocument → List Node → List HealthFinding
unfolding missing_alt is_at_risk
issues doc nodes =
    finding_if (not doc.accessibility.has_doc_title) "warn" "a11y.no_title"
    ++ finding_if (not (is_nil (missing_alt nodes))) "warn" "a11y.missing_alt"
    ++ finding_if (is_at_risk doc) "warn" "trust.metadata"
    ++ finding_if (not (is_nil doc.redaction.pending)) "fail" "trust.redaction_pending"

abbrev pub or_ok : List HealthFinding → List HealthFinding
or_ok [] = record { level = "ok"; code = "ok" } ∷ []
or_ok (f ∷ findings) = f ∷ findings

-- `nodes` are the values of the registry, in its order. The document gets the score and the images
-- without a text.
unfoldable pub compute_health : CanonicalDocument → List Node → DocumentHealth × CanonicalDocument
unfolding score_of issues is_at_risk missing_alt
compute_health doc nodes =
    let noted : AccessibilityState = record {
      has_doc_title = doc.accessibility.has_doc_title;
      tagged = doc.accessibility.tagged;
      images_missing_alt = missing_alt nodes;
      reading_order_ok = doc.accessibility.reading_order_ok;
      score = score_of doc nodes;
    } in
    (
      record {
        accessibility_score = score_of doc nodes;
        metadata_risk = is_at_risk doc;
        has_pending_redactions = not (is_nil doc.redaction.pending);
        signed = doc.signature.signed;
        ready_for_signing = doc.signature.ready_for_signing;
        findings = or_ok (issues doc nodes);
      },
      record {
        schema_version = doc.schema_version;
        doc_id = doc.doc_id;
        root_id = doc.root_id;
        nodes = doc.nodes;
        meta = doc.meta;
        permissions = doc.permissions;
        redaction = doc.redaction;
        accessibility = noted;
        signature = doc.signature;
        content_hash = doc.content_hash;
      },
    )
