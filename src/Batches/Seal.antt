-- ===== src/Batches/Seal.antt =====
-- `sign_document` and `signature_status` of api/routes_patches.py (backend/src/docos).
use cross_format_documment.Base.{ℕ, String, Option, none, Bool, true, [], ◌∷◌}
use cross_format_documment.Base.Http.{Http, reply, fail, ◌>>=◌}
use cross_format_documment.Model.{str, CanonicalDocument}
use cross_format_documment.Access.Owner.{Actor}
use cross_format_documment.Signing.{sign, verify}
use cross_format_documment.Versions.Store.{Serializer, Store, canonical_hash, put_version}
use cross_format_documment.Versions.Routes.{load_latest}
use cross_format_documment.Versions.Edits.{log_edit}

pub record SignatureResponse : Type 0 where
  pub doc_id : String
  pub signed : Bool
  pub valid : Bool
  pub signer : Option String
  pub signed_at : Option ℕ

module _ {J : Type 0} (s : Serializer J) (hmac : String → String → String) (secret : String) where
  -- `sign_document` behind the load of the latest version
  unfoldable pub sign_latest :
      Store J
      → String
      → String
      → ℕ
      → Http (String × CanonicalDocument)
      → Store J × Http SignatureResponse
  unfolding sign put_version canonical_hash
  sign_latest store doc_id signer now (fail c) = (store, fail c)
  sign_latest store doc_id signer now (reply (v, doc)) =
      let signed : CanonicalDocument = sign (canonical_hash s) hmac doc signer secret now in
      (
        log_edit (put_version s store doc_id signed none).0 doc_id "document.signed" "api"
            (("signer", str signer) ∷ []),
        reply (record {
          doc_id = doc_id;
          signed = true;
          valid = true;
          signer = signed.signature.signer;
          signed_at = signed.signature.signed_at;
        }),
      )

  unfoldable pub sign_document :
      Store J → String → String → ℕ → Actor → Store J × Http SignatureResponse
  unfolding load_latest sign_latest
  sign_document store doc_id signer now actor =
      sign_latest store doc_id signer now (load_latest s store doc_id actor)

  unfoldable pub signature_status : Store J → String → Actor → Http SignatureResponse
  unfolding load_latest verify canonical_hash
  signature_status store doc_id actor = do
    (v, doc) ← load_latest s store doc_id actor
    reply (record {
      doc_id = doc_id;
      signed = doc.signature.signed;
      valid = verify (canonical_hash s) hmac doc secret;
      signer = doc.signature.signer;
      signed_at = doc.signature.signed_at;
    })
