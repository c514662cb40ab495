-- ===== src/Batches/Sealed.antt =====
-- What the status of a signature is after a document was signed.
use cross_format_documment.Base.{
  ℕ, String, ◌==◌, Option, none, some, Bool, true, false, ◌≡◌, refl, sym, ◌∙◌, ap, subst,
}
use cross_format_documment.Base.Http.{Http, reply}
use cross_format_documment.Model.{CanonicalDocument}
use cross_format_documment.Access.Owner.{Actor, Document, Owned}
use cross_format_documment.Signing.{with_signature, blank, content_digest, sign, verify}
use cross_format_documment.Signing.Verify.{verify-sign}
use cross_format_documment.Versions.Store.{
  Serializer, DocumentVersion, Store, to_dict, from_dict, canonical_hash, put_version,
  commit_version, commit, version_row, with_content_hash, find_version, set_current, lineage,
  newest_id,
}
use cross_format_documment.Versions.Routes.{current_id, load_latest}
use cross_format_documment.Versions.Rows.{find_added_new}
use cross_format_documment.Versions.Loaded.{current_id-reply, load_latest-inverts}
use cross_format_documment.Versions.Undo.{current_id-set_current}
use cross_format_documment.Batches.Seal.{
  SignatureResponse, sign_latest, sign_document, signature_status,
}

module _ {J : Type 0} (s : Serializer J) where
  load_latest-found :
      (store : Store J) (doc_id c : String) (actor : Actor) (v : DocumentVersion J)
      (m : CanonicalDocument)
      → current_id store doc_id actor ≡ reply c
      → find_version store.versions c ≡ some v
      → from_dict s v.model ≡ some m
      → load_latest s store doc_id actor ≡ reply (c, m)
  unfolding load_latest
  load_latest-found store doc_id c actor v m at known model = rw at (rw known (rw model refl))

  -- The owner of a document loads the version that was put, if its content is new and is read back as
  -- it was written.
  pub load_latest-put_version :
      (store : Store J) (doc_id : String) (doc : CanonicalDocument) (patch : Option String)
      (actor : Actor) (d : Document)
      → store.docs doc_id ≡ some d
      → Owned d actor
      → find_version store.versions (canonical_hash s doc) ≡ none
      → from_dict s (to_dict s (with_content_hash doc (canonical_hash s doc)))
        ≡ some (with_content_hash doc (canonical_hash s doc))
      → load_latest s (put_version s store doc_id doc patch).0 doc_id actor
        ≡ reply (canonical_hash s doc, with_content_hash doc (canonical_hash s doc))
  unfolding put_version commit_version set_current commit version_row
  load_latest-put_version store doc_id doc patch actor d row owned fresh valid =
      let parent = newest_id (lineage store doc.doc_id) in
      let v = version_row s doc parent patch in
      load_latest-found (put_version s store doc_id doc patch).0 doc_id (canonical_hash s doc) actor
        v (with_content_hash doc (canonical_hash s doc))
        (current_id-set_current (commit s store doc parent patch).0 doc_id (canonical_hash s doc)
          actor d row owned)
        (find_added_new store.versions v fresh) valid

  module _ (hmac : String → String → String) (secret : String)
      (not_empty : (key text : String) → (hmac key text == "") ≡ false)
      (popped : (doc : CanonicalDocument) (h : String)
        → s.pop_content_hash (s.model_dump (with_content_hash doc h))
          ≡ s.pop_content_hash (s.model_dump doc)) where
    hash_of_stored :
        (doc : CanonicalDocument) (h : String)
        → canonical_hash s (with_content_hash doc h) ≡ canonical_hash s doc
    unfolding canonical_hash to_dict
    hash_of_stored doc h = rw (popped doc h) refl

    stored_verifies :
        (doc : CanonicalDocument) (signer h : String) (now : ℕ)
        → doc.signature.ready_for_signing ≡ false
        → verify
            (canonical_hash s)
            hmac
            (with_content_hash (sign (canonical_hash s) hmac doc signer secret now) h)
            secret
          ≡ true
    unfolding sign content_digest
    stored_verifies doc signer h now ready =
        (verify-sign (canonical_hash s) hmac not_empty doc
            (with_content_hash (sign (canonical_hash s) hmac doc signer secret now) h) signer secret
            now refl).1
          (ap (hmac secret) (
            hash_of_stored (with_signature doc (blank false)) h
            ∙ ap (λ r. canonical_hash s (with_signature doc (blank r))) (sym ready)))

    abbrev answer_of : String → CanonicalDocument → Bool → SignatureResponse
    answer_of doc_id doc valid = record {
      doc_id = doc_id;
      signed = doc.signature.signed;
      valid = valid;
      signer = doc.signature.signer;
      signed_at = doc.signature.signed_at;
    }

    -- what is stored of the signed document
    abbrev pub stored_seal : CanonicalDocument → String → ℕ → CanonicalDocument
    stored_seal doc signer now =
        let signed = sign (canonical_hash s) hmac doc signer secret now in
        with_content_hash signed (canonical_hash s signed)

    signature_status-found :
        (store : Store J) (doc_id c : String) (actor : Actor) (m : CanonicalDocument)
        → load_latest s store doc_id actor ≡ reply (c, m)
        → signature_status s hmac secret store doc_id actor
          ≡ reply (answer_of doc_id m (verify (canonical_hash s) hmac m secret))
    unfolding signature_status
    signature_status-found store doc_id c actor m h = rw h refl

    -- With a HMAC that is never empty and a hash that leaves `content_hash` out: the signature of a
    -- document that was not marked ready, whose signed content is new and is read back as it was
    -- written, is reported afterwards as it was answered: signed and valid, with its signer and time.
    pub seal_is_reported :
        (store : Store J) (doc_id signer v : String) (now : ℕ) (actor : Actor)
        (doc : CanonicalDocument)
        → load_latest s store doc_id actor ≡ reply (v, doc)
        → doc.signature.ready_for_signing ≡ false
        → find_version store.versions
            (canonical_hash s (sign (canonical_hash s) hmac doc signer secret now))
          ≡ none
        → from_dict s (to_dict s (stored_seal doc signer now)) ≡ some (stored_seal doc signer now)
        → signature_status s hmac secret
            (sign_document s hmac secret store doc_id signer now actor).0
            doc_id
            actor
          ≡ (sign_document s hmac secret store doc_id signer now actor).1
    unfolding sign_document sign_latest sign
    seal_is_reported store doc_id signer v now actor doc h ready fresh valid =
        let signed : CanonicalDocument = sign (canonical_hash s) hmac doc signer secret now in
        let hash = canonical_hash s signed in
        let stored = with_content_hash signed hash in
        let after = sign_latest s hmac secret store doc_id signer now (reply (v, doc)) in
        let (_, at, _, _) = load_latest-inverts s store doc_id actor v doc h in
        let (d, row, owned, _) = current_id-reply store doc_id actor v at in
        let loaded : load_latest s after.0 doc_id actor ≡ reply (hash, stored) =
          load_latest-put_version store doc_id signed none actor d row owned fresh valid in
        subst
          (λ (x : Store J × Http SignatureResponse).
            signature_status s hmac secret x.0 doc_id actor ≡ x.1)
          (sym (ap (sign_latest s hmac secret store doc_id signer now) h))
          (signature_status-found after.0 doc_id hash actor stored loaded
            ∙ ap (λ b. reply (answer_of doc_id stored b))
                (stored_verifies doc signer hash now ready))
