-- ===== src/Signing.antt =====
-- services/provenance/signing.py (backend/src/docos): signing a document and verifying it. The
-- canonical hash and the HMAC are parameters.
pub mod Verify
mod Tests
use cross_format_documment.Base.{
  ℕ, String, ◌==◌, Option, none, some, Bool, true, false, not, if◌then◌else◌,
}
use cross_format_documment.Model.{CanonicalDocument, SignatureState}

abbrev pub with_signature : CanonicalDocument → SignatureState → CanonicalDocument
with_signature doc s = record {
  schema_version = doc.schema_version;
  doc_id = doc.doc_id;
  root_id = doc.root_id;
  nodes = doc.nodes;
  meta = doc.meta;
  permissions = doc.permissions;
  redaction = doc.redaction;
  accessibility = doc.accessibility;
  signature = s;
  content_hash = doc.content_hash;
}

-- `SignatureState(ready_for_signing=ready)`
abbrev pub blank : Bool → SignatureState
blank ready = record {
  signed = false;
  signature_valid = none;
  ready_for_signing = ready;
  signer = none;
  signed_at = none;
  digest = none;
}

module _ (canonical_hash : CanonicalDocument → String) (hmac : String → String → String) where
  unfoldable pub content_digest : CanonicalDocument → String → String
  content_digest doc secret =
      hmac secret (canonical_hash (with_signature doc (blank doc.signature.ready_for_signing)))

  -- `now` is the time that is written into the signature.
  unfoldable pub sign : CanonicalDocument → String → String → ℕ → CanonicalDocument
  unfolding content_digest
  sign doc signer secret now = with_signature doc (record {
    signed = true;
    signature_valid = some true;
    ready_for_signing = false;
    signer = some signer;
    signed_at = some now;
    digest = some (content_digest doc secret);
  })

  -- `not digest` and `compare_digest`, on the stored digest
  abbrev pub digest_fits : Option String → String → Bool
  digest_fits none d = false
  digest_fits (some e) d = if e == "" then false else e == d

  unfoldable pub verify : CanonicalDocument → String → Bool
  unfolding content_digest
  verify doc secret =
      if doc.signature.signed
      then digest_fits doc.signature.digest (content_digest doc secret)
      else false
