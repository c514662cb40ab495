-- ===== src/Health/Tests.antt =====
-- An untitled document with a picture, a risky key and no text for the picture.
use cross_format_documment.Base.{none, true, false, [], ◌∷◌, ◌≡◌, ◌↔◌, refl}
use cross_format_documment.Base.Maps.{empty, put}
use cross_format_documment.Model.{null, str, Node, NodeType, CanonicalDocument}
use cross_format_documment.Health.{compute_health}
use cross_format_documment.Health.Clean.{Clean, compute_health_lem}

abbrev picture : Node
picture = record {
  id = "i";
  type = NodeType.image;
  parent_id = none;
  children = [];
  bbox = null;
  attrs = empty;
  tags = [];
  fields = empty;
}

abbrev untitled : CanonicalDocument
untitled = record {
  schema_version = "1.0";
  doc_id = "d";
  root_id = "i";
  nodes = put empty "i" picture;
  meta = record {
    title = none;
    author = none;
    source_format = "docx";
    source_mime = "application/docx";
    created_at = 0;
    modified_at = 0;
    page_count = 1;
    custom = put empty "author" (str "A");
  };
  permissions = record {
    can_edit = true;
    can_export = true;
    can_copy = true;
    encrypted = false;
    password_protected = false;
  };
  redaction = record { redacted_node_ids = []; metadata_sanitized = false; pending = [] };
  accessibility = record {
    has_doc_title = false;
    tagged = false;
    images_missing_alt = [];
    reading_order_ok = true;
    score = 0;
  };
  signature = record {
    signed = false;
    signature_valid = none;
    ready_for_signing = false;
    signer = none;
    signed_at = none;
    digest = none;
  };
  content_hash = none;
}

compute_health_lem_example :
    ((compute_health untitled (picture ∷ [])).0.findings
      ≡ record { level = "ok"; code = "ok" } ∷ [])
    ↔ Clean untitled (picture ∷ [])
compute_health_lem_example = compute_health_lem untitled (picture ∷ [])

three_findings :
    (compute_health untitled (picture ∷ [])).0.findings
    ≡ record { level = "warn"; code = "a11y.no_title" }
      ∷ record { level = "warn"; code = "a11y.missing_alt" }
      ∷ record { level = "warn"; code = "trust.metadata" }
      ∷ []
unfolding compute_health
three_findings = refl
