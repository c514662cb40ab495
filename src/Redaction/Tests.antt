-- ===== src/Redaction/Tests.antt =====
-- Redaction of a run in a marked paragraph.
use cross_format_documment.Base.{
  eq_iff, some, none, Bool, true, false, [], ◌∷◌, ◌≡◌, ◌↔◌, refl, arith,
}
use cross_format_documment.Base.Maps.{empty, put}
use cross_format_documment.Model.{Node, NodeType, null, str, attr, CanonicalDocument}
use cross_format_documment.Redaction.{is_redacted, run_text, node_text}
use cross_format_documment.Redaction.Ancestors.{Covered, IsKeys, is_redacted-decides}
use cross_format_documment.Redaction.Texts.{texts_of_covered}

abbrev paragraph : Node
paragraph = record {
  id = "p";
  type = NodeType.paragraph;
  parent_id = none;
  children = "t" ∷ [];
  bbox = null;
  attrs = empty;
  tags = [];
  fields = empty;
}

abbrev secret_run : Node
secret_run = record {
  id = "t";
  type = NodeType.run;
  parent_id = some "p";
  children = [];
  bbox = null;
  attrs = empty;
  tags = [];
  fields = put empty "text" (str "secret");
}

-- The paragraph "p" is marked, the run "t" below it is not.
abbrev marked_doc : CanonicalDocument
marked_doc = record {
  schema_version = "1.0";
  doc_id = "d";
  root_id = "p";
  nodes = put (put empty "p" paragraph) "t" secret_run;
  meta = record {
    title = none;
    author = none;
    source_format = "docx";
    source_mime = "application/docx";
    created_at = 0;
    modified_at = 0;
    page_count = 1;
    custom = empty;
  };
  permissions = record {
    can_edit = true;
    can_export = true;
    can_copy = true;
    encrypted = false;
    password_protected = false;
  };
  redaction = record { redacted_node_ids = "p" ∷ []; metadata_sanitized = false; pending = [] };
  accessibility = record {
    has_doc_title = false;
    tagged = false;
    images_missing_alt = [];
    reading_order_ok = false;
    score = 0;
  };
  signature = record {
    signed = false;
    signature_valid = none;
    ready_for_signing = false;
    signer = none;
    signed_at = none;
    digest = none;
  };
  content_hash = none;
}

marked_doc-IsKeys : IsKeys marked_doc ("p" ∷ "t" ∷ [])
marked_doc-IsKeys i n h = ground (arith, eq_iff "p" i, eq_iff "t" i)

is_redacted-decides_example :
    (b : Bool) × (is_redacted 3 marked_doc (some "t") ≡ some b)
    × ((b ≡ true) ↔ Covered marked_doc "t")
is_redacted-decides_example =
    is_redacted-decides marked_doc ("p" ∷ "t" ∷ []) 3 "t" marked_doc-IsKeys (omega arith) refl

texts_of_covered_example :
    (Covered marked_doc "t"
      → (run_text 3 marked_doc secret_run ≡ some (str ""))
        × (node_text 3 marked_doc secret_run ≡ some (str "")))
    × (¬ (Covered marked_doc "t")
        → run_text 3 marked_doc secret_run ≡ some (attr secret_run "text" (str "")))
texts_of_covered_example =
    texts_of_covered marked_doc ("p" ∷ "t" ∷ []) 3 secret_run marked_doc-IsKeys (omega arith) refl

run_is_hidden : run_text 3 marked_doc secret_run ≡ some (str "")
unfolding run_text
run_is_hidden = refl
