-- ===== src/Signing/Tests.antt =====
-- A small document, signed with a hash that tells documents by their title.
use cross_format_documment.Base.{
  String, ◌==◌, some, none, Option, true, false, [], ◌≡◌, ◌↔◌, refl, Bool-cases, inl, inr,
  if◌then◌else◌,
}
use cross_format_documment.Base.Maps.{empty}
use cross_format_documment.Model.{CanonicalDocument}
use cross_format_documment.Signing.{with_signature, blank, content_digest, sign, verify}
use cross_format_documment.Signing.Verify.{verify-sign}

abbrev titled : Option String → CanonicalDocument
titled title = record {
  schema_version = "1.0";
  doc_id = "d";
  root_id = "r";
  nodes = empty;
  meta = record {
    title = title;
    author = none;
    source_format = "docx";
    source_mime = "application/docx";
    created_at = 0;
    modified_at = 0;
    page_count = 1;
    custom = empty;
  };
  permissions = record {
    can_edit = true;
    can_export = true;
    can_copy = true;
    encrypted = false;
    password_protected = false;
  };
  redaction = record { redacted_node_ids = []; metadata_sanitized = false; pending = [] };
  accessibility = record {
    has_doc_title = false;
    tagged = false;
    images_missing_alt = [];
    reading_order_ok = false;
    score = 0;
  };
  signature = blank false;
  content_hash = none;
}

abbrev hash_title : CanonicalDocument → String
hash_title doc = elim doc.meta.title [ none ↦ "" | some t ↦ t ]

abbrev mac : String → String → String
mac key text = if text == "" then "0" else text

mac_is_not_empty : (key text : String) → (mac key text == "") ≡ false
mac_is_not_empty key text = elim (Bool-cases (text == "")) [ inl e ↦ rw e refl | inr e ↦ rw e e ]

abbrev tampered : CanonicalDocument
unfolding sign
tampered =
    with_signature (titled (some "b"))
      (sign hash_title mac (titled (some "a")) "ann" "k" 3).signature

tampered_signature :
    tampered.signature ≡ (sign hash_title mac (titled (some "a")) "ann" "k" 3).signature
unfolding tampered sign
tampered_signature = refl

verify-sign_example : (verify hash_title mac tampered "k" ≡ true) ↔ (
    mac "k" (hash_title (with_signature tampered (blank false)))
    ≡ content_digest hash_title mac (titled (some "a")) "k")
verify-sign_example =
    verify-sign hash_title mac mac_is_not_empty (titled (some "a")) tampered "ann" "k" 3
      tampered_signature

change_is_noticed : verify hash_title mac tampered "k" ≡ false
unfolding verify content_digest tampered sign
change_is_noticed = refl
