-- ===== src/Signing/Verify.antt =====
-- A signed document verifies, and one that was changed after signing does so only if its hash is the
-- same.
use cross_format_documment.Base.{
  text_eq, ℕ, String, ◌==◌, eq_refl, true, false, if◌then◌else◌, ◌≡◌, ◌↔◌, refl, sym, ◌∙◌, ap,
}
use cross_format_documment.Model.{CanonicalDocument, SignatureState}
use cross_format_documment.Signing.{
  with_signature, blank, content_digest, sign, verify, digest_fits,
}

module _ (canonical_hash : CanonicalDocument → String) (hmac : String → String → String)
    (not_empty : (key text : String) → (hmac key text == "") ≡ false) where
  -- `verify` by the signature that the document carries.
  verify_by :
      (other : CanonicalDocument) (secret : String) (s : SignatureState)
      → other.signature ≡ s
      → verify canonical_hash hmac other secret ≡ (
          if s.signed
          then digest_fits canonical_hash hmac s.digest
              (hmac secret (canonical_hash (with_signature other (blank s.ready_for_signing))))
          else false)
  unfolding verify content_digest
  verify_by other secret s h =
      ap
        (λ (x : SignatureState).
          if x.signed
          then digest_fits canonical_hash hmac x.digest
              (hmac secret (canonical_hash (with_signature other (blank x.ready_for_signing))))
          else false)
        h

  -- With a HMAC that is never empty: a document carrying the signature that `sign` made for another
  -- one verifies exactly if its digest is that of the document that was signed.
  pub verify-sign :
      (doc other : CanonicalDocument) (signer secret : String) (now : ℕ)
      → other.signature ≡ (sign canonical_hash hmac doc signer secret now).signature
      → (verify canonical_hash hmac other secret ≡ true) ↔ (
          hmac secret (canonical_hash (with_signature other (blank false)))
          ≡ content_digest canonical_hash hmac doc secret)
  unfolding verify sign content_digest
  verify-sign doc other signer secret now h =
      let d = content_digest canonical_hash hmac doc secret in
      let x = hmac secret (canonical_hash (with_signature other (blank false))) in
      let full : (d == "") ≡ false = not_empty _ _ in
      let e : verify canonical_hash hmac other secret ≡ (d == x) =
        verify_by other secret _ h ∙ rw full refl in
      (λ v. sym (text_eq d x (sym e ∙ v)), λ same. e ∙ rw same (eq_refl d))
