-- ===== src/Suggestions/Accepted.antt =====
-- What an accepted suggestion does to the document.
use cross_format_documment.Base.{
  ℕ, List, Option, Option-cases, inl, inr, ◌⊎◌, subst, String, some, true, ◌≡◌, refl, sym, ◌∙◌, ap,
}
use cross_format_documment.Base.Result.{
  Result, ok, err, Error, diverges, key_error, value_error, type_error, index_error,
  validation_error, ok-injective,
}
use cross_format_documment.Base.Http.{Http, reply, fail, fail≢reply, reply-injective}
use cross_format_documment.Model.{CanonicalDocument}
use cross_format_documment.Access.Owner.{Actor, Document, Owned}
use cross_format_documment.Patch.Op.{Env}
use cross_format_documment.Patch.Execute.{Applied, apply}
use cross_format_documment.Versions.Store.{
  Serializer, DocumentVersion, Store, find_version, newest_id, lineage, set_current, to_dict,
  with_content_hash, canonical_hash, commit_version, commit, version_row, put_version,
}
use cross_format_documment.Versions.Routes.{current_id, load_latest}
use cross_format_documment.Versions.Rows.{find_added_new, find_added_known}
use cross_format_documment.Versions.Loaded.{current_id-reply, load_latest-inverts}
use cross_format_documment.Versions.Undo.{current_id-set_current}
use cross_format_documment.Suggestions.{
  Status, SuggestedEdit, Desk, find_suggestion, is_pending, settle_accepted, check_accept,
  accept_checked, accept_suggestion,
}
use cross_format_documment.Suggestions.Decided.{check_accept-loaded}
use cross_format_documment.Suggestions.Loading.{
  load_pending-reply, find_suggestion-replaced, find_suggestion-id,
}

module _ {J D : Type 0} (s : Serializer J) (env : Env D) where
  -- The row as it was decided.
  abbrev pub accepted_row : SuggestedEdit D → CanonicalDocument → ℕ → SuggestedEdit D
  accepted_row row doc now = record row {
    status = Status.accepted;
    new_version_id = some (canonical_hash s doc);
    decided_at = some now;
  }

  -- The table `after` has a row under the hash of the document: one that was there, or else a new one
  -- of the document and its patch, which holds the document with its hash.
  abbrev pub Committed :
      List (DocumentVersion J) → List (DocumentVersion J) → CanonicalDocument → String → Type 0
  Committed vs after doc patch_id =
      (w : DocumentVersion J) × (find_version after (canonical_hash s doc) ≡ some w)
      × ((find_version vs (canonical_hash s doc) ≡ some w)
          ⊎ ((w.model ≡ to_dict s (with_content_hash doc (canonical_hash s doc)))
              × (w.document_id ≡ doc.doc_id)
              × (w.patch_id ≡ some patch_id)))

  commit-Committed :
      (store : Store J) (doc : CanonicalDocument) (parent : Option String) (patch_id : String)
      → Committed store.versions (commit s store doc parent (some patch_id)).0.versions doc patch_id
  unfolding commit version_row
  commit-Committed store doc parent patch_id =
      let v = version_row s doc parent (some patch_id) in
      elim (Option-cases (find_version store.versions (canonical_hash s doc))) [
        | inl fresh ↦ (v, find_added_new store.versions v fresh, inr (refl, refl, refl))
        | inr (w, known) ↦ (w, find_added_known store.versions v w known, inl known)
      ]

  not_replied :
      (desk : Desk J D) (doc_id : String) (row : SuggestedEdit D) (now : ℕ) (e : Error)
      (after : Desk J D) (view : SuggestedEdit D)
      → settle_accepted s env desk doc_id row now (err e) ≡ ok (after, reply view)
      → ⊥
  unfolding settle_accepted
  not_replied desk doc_id row now diverges after view h = cc
  not_replied desk doc_id row now key_error after view h = cc
  not_replied desk doc_id row now value_error after view h = cc
  not_replied desk doc_id row now type_error after view h = cc
  not_replied desk doc_id row now index_error after view h = cc
  not_replied desk doc_id row now validation_error after view h = cc

  -- What acceptance is made of: the executor ran on the patch, the version was set.
  settle_accepted-reply :
      (desk : Desk J D) (doc_id sid : String) (row : SuggestedEdit D) (now : ℕ)
      (result : Result (Applied D)) (after : Desk J D) (view : SuggestedEdit D) (actor : Actor)
      (d : Document)
      → find_suggestion desk.suggestions sid ≡ some row
      → desk.store.docs doc_id ≡ some d
      → Owned d actor
      → settle_accepted s env desk doc_id row now result ≡ ok (after, reply view)
      → (done : Applied D) × (result ≡ ok done)
        × (view ≡ accepted_row row done.doc now)
        × (find_suggestion after.suggestions sid ≡ some view)
        × (current_id after.store doc_id actor ≡ reply (canonical_hash s done.doc))
        × Committed desk.store.versions after.store.versions done.doc row.patch.id
  unfolding settle_accepted put_version commit_version commit current_id set_current
  settle_accepted-reply desk doc_id sid row now (err e) after view actor d there at owned h =
      absurd (not_replied desk doc_id row now e after view h)
  settle_accepted-reply desk doc_id sid row now (ok done) after view actor d there at owned h =
      let stored = put_version s desk.store doc_id done.doc (some row.patch.id) in
      let decided = accepted_row row done.doc now in
      let answer = ok-injective h in
      let seen : decided ≡ view = reply-injective (ap (λ x. x.1) answer) in
      let id = find_suggestion-id desk.suggestions row sid there in
      (
        done,
        refl,
        sym seen,
        ap (λ x. find_suggestion x.0.suggestions sid) (sym answer)
            ∙ find_suggestion-replaced desk.suggestions decided row sid id there
            ∙ ap some seen,
        ap (λ x. current_id x.0.store doc_id actor) (sym answer)
            ∙ current_id-set_current (commit_version s desk.store done.doc (some row.patch.id)).0
                doc_id (canonical_hash s done.doc) actor d at owned,
        subst (λ vs. Committed desk.store.versions vs done.doc row.patch.id)
            (ap (λ x. x.0.store.versions) answer)
            (commit-Committed desk.store done.doc (newest_id (lineage desk.store done.doc.doc_id))
              row.patch.id),
      )

  accept_checked-reply :
      (k : ℕ) (desk : Desk J D) (doc_id : String) (now : ℕ)
      (checked : Http (SuggestedEdit D × CanonicalDocument)) (after : Desk J D)
      (view : SuggestedEdit D)
      → accept_checked s env k desk doc_id now checked ≡ ok (after, reply view)
      → (row : SuggestedEdit D) × (doc : CanonicalDocument) × (checked ≡ reply (row, doc))
        × (settle_accepted s env desk doc_id row now (apply env k doc row.patch.patches)
            ≡ ok (after, reply view))
  unfolding accept_checked
  accept_checked-reply k desk doc_id now (fail c) after view h =
      absurd (fail≢reply (ap (λ x. x.1) (ok-injective h)))
  accept_checked-reply k desk doc_id now (reply (row, doc)) after view h = (row, doc, refl, h)

  -- A suggestion is accepted only while it waits: then its patch was applied to the latest version of
  -- the document, the answer and the stored row are the suggestion, accepted, with the new version's
  -- id, and that is the document's current version. The table of versions has a row under that id:
  -- one that was there before, or else one that holds the result with its hash, and the patch's id.
  pub accepted_is_applied :
      (k : ℕ) (desk : Desk J D) (doc_id sid : String) (actor : Actor) (now : ℕ) (after : Desk J D)
      (view : SuggestedEdit D)
      → accept_suggestion s env k desk doc_id sid actor now ≡ ok (after, reply view)
      → (row : SuggestedEdit D) × (v : String) × (doc : CanonicalDocument) × (done : Applied D)
        × (find_suggestion desk.suggestions sid ≡ some row)
        × (is_pending row.status ≡ true)
        × (load_latest s desk.store doc_id actor ≡ reply (v, doc))
        × (apply env k doc row.patch.patches ≡ ok done)
        × (view ≡ accepted_row row done.doc now)
        × (find_suggestion after.suggestions sid ≡ some view)
        × (current_id after.store doc_id actor ≡ reply (canonical_hash s done.doc))
        × Committed desk.store.versions after.store.versions done.doc row.patch.id
  unfolding accept_suggestion
  accepted_is_applied k desk doc_id sid actor now after view h =
      let (row, doc, checked, settled) =
        accept_checked-reply k desk doc_id now (check_accept s env desk doc_id sid actor) after view
          h in
      let (v, pending, loaded, _) =
        check_accept-loaded s env desk doc_id sid actor row doc checked in
      let (there, _, waits) = load_pending-reply desk doc_id sid actor row pending in
      let (_, at, _, _) = load_latest-inverts s desk.store doc_id actor v doc loaded in
      let (d, docs, owned, _) = current_id-reply desk.store doc_id actor v at in
      let (done, applied, seen, stored, current, committed) =
        settle_accepted-reply desk doc_id sid row now (apply env k doc row.patch.patches) after view
          actor d there docs owned settled in
      (row, v, doc, done, there, waits, loaded, applied, seen, stored, current, committed)
