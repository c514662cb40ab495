-- ===== src/Suggestions/Decided.antt =====
-- A suggestion is decided once.
use cross_format_documment.Base.{
  ℕ, String, ◌==◌, eq_refl, some, true, false, List, [], ◌∷◌, ◌≡◌, refl, sym, ◌∙◌, ap, arith,
  false≢true, inl, inr,
}
use cross_format_documment.Base.Lists.{all_of}
use cross_format_documment.Base.Result.{Result, ok, err}
use cross_format_documment.Base.Http.{
  Http, reply, fail, guard, ◌>>=◌, ◌>>◌, >>=-eq-reply, guard-eq-reply, reply-injective, Http-cases,
}
use cross_format_documment.Model.{CanonicalDocument}
use cross_format_documment.Access.Owner.{Actor}
use cross_format_documment.Patch.Op.{Env}
use cross_format_documment.Patch.Execute.{Applied, apply}
use cross_format_documment.Versions.Store.{Serializer}
use cross_format_documment.Versions.Routes.{load_latest}
use cross_format_documment.Versions.Edits.{validate_image_blob_refs}
use cross_format_documment.Suggestions.{
  Status, SuggestedEdit, SuggestRequest, Desk, find_suggestion, is_pending, load_pending,
  create_suggestion, check_proposal, settle_accepted, check_accept, accept_checked,
  accept_suggestion, reject_suggestion, still_applies,
}
use cross_format_documment.Suggestions.Loading.{
  find_suggestion-append, find_suggestion-id, find_suggestion-replace, load_pending-reply,
  not_loaded,
}

pub data Call (D : Type 0) : Type 0 where
  suggest : String → String → String → SuggestRequest D → Actor → Call D
  accept : ℕ → String → String → Actor → ℕ → Call D
  reject : String → String → Actor → ℕ → Call D

-- The rows after a request; one that never ends changes none.
abbrev pub desk_of {ℓ} : {J D : Type 0} {A : Type ℓ} → Desk J D → Result (Desk J D × A) → Desk J D
desk_of desk (err e) = desk
desk_of desk (ok (after, answer)) = after

unfoldable pub answer_call : {J D : Type 0} → Serializer J → Env D → Desk J D → Call D → Desk J D
answer_call s env desk (suggest sid patch_id doc_id body actor) =
    (create_suggestion s env sid patch_id desk doc_id body actor).0
answer_call s env desk (accept drawn doc_id sid actor now) =
    desk_of desk (accept_suggestion s env drawn desk doc_id sid actor now)
answer_call s env desk (reject doc_id sid actor now) =
    (reject_suggestion desk doc_id sid actor now).0

unfoldable pub run : {J D : Type 0} → Serializer J → Env D → List (Call D) → Desk J D → Desk J D
unfolding answer_call
run s env [] desk = desk
run s env (call ∷ calls) desk = run s env calls (answer_call s env desk call)

module _ {J D : Type 0} (s : Serializer J) (env : Env D) where
  create-stays :
      (desk : Desk J D) (sid new_id patch_id doc_id : String) (body : SuggestRequest D)
      (actor : Actor) (row : SuggestedEdit D)
      → find_suggestion desk.suggestions sid ≡ some row
      → find_suggestion
          (create_suggestion s env new_id patch_id desk doc_id body actor).0.suggestions
          sid
        ≡ some row
  unfolding create_suggestion
  create-stays desk sid new_id patch_id doc_id body actor row h =
      elim (Http-cases (check_proposal s env desk doc_id body actor)) [
        | inl (c, refused) ↦ rw (create_suggestion, refused) h
        | inr (_, passed) ↦
            rw (create_suggestion, passed) (find_suggestion-append desk.suggestions _ row sid h)
      ]

  reject-stays :
      (desk : Desk J D) (sid doc_id other : String) (actor : Actor) (now : ℕ)
      (row : SuggestedEdit D)
      → find_suggestion desk.suggestions sid ≡ some row
      → is_pending row.status ≡ false
      → find_suggestion (reject_suggestion desk doc_id other actor now).0.suggestions sid ≡ some row
  unfolding reject_suggestion
  reject-stays desk sid doc_id other actor now row h decided =
      elim (Http-cases (load_pending desk doc_id other actor)) [
        | inl (c, refused) ↦ rw (reject_suggestion, refused) h
        | inr (r, loaded) ↦
            rw (reject_suggestion, loaded)
              (find_suggestion-replace desk.suggestions
                  (record r { status = Status.rejected; decided_at = some now }) sid
                  (not_loaded desk doc_id sid other actor row r h decided loaded)
                ∙ h)
      ]

  settled-stays :
      (desk : Desk J D) (sid doc_id : String) (now : ℕ) (row loaded : SuggestedEdit D)
      (result : Result (Applied D))
      → find_suggestion desk.suggestions sid ≡ some row
      → (loaded.id == sid) ≡ false
      → find_suggestion
          (desk_of desk (settle_accepted s env desk doc_id loaded now result)).suggestions
          sid
        ≡ some row
  unfolding settle_accepted
  settled-stays desk sid doc_id now row loaded (err e) h apart = ground arith
  settled-stays desk sid doc_id now row loaded (ok done) h apart =
      find_suggestion-replace desk.suggestions _ sid apart ∙ h

  checked-stays :
      (k : ℕ) (desk : Desk J D) (sid doc_id : String) (now : ℕ) (row : SuggestedEdit D)
      (checked : Http (SuggestedEdit D × CanonicalDocument))
      → find_suggestion desk.suggestions sid ≡ some row
      → ((loaded : SuggestedEdit D) (doc : CanonicalDocument)
          → checked ≡ reply (loaded, doc)
          → (loaded.id == sid) ≡ false)
      → find_suggestion
          (desk_of desk (accept_checked s env k desk doc_id now checked)).suggestions
          sid
        ≡ some row
  unfolding accept_checked
  checked-stays k desk sid doc_id now row (fail c) h apart = h
  checked-stays k desk sid doc_id now row (reply (loaded, doc)) h apart =
      settled-stays desk sid doc_id now row loaded (apply env k doc loaded.patch.patches) h
        (apart loaded doc refl)

  pub check_accept-loaded :
      (desk : Desk J D) (doc_id sid : String) (actor : Actor) (row : SuggestedEdit D)
      (doc : CanonicalDocument)
      → check_accept s env desk doc_id sid actor ≡ reply (row, doc)
      → (v : String) × (load_pending desk doc_id sid actor ≡ reply row)
        × (load_latest s desk.store doc_id actor ≡ reply (v, doc))
        × (all_of (still_applies doc) row.patch.patches ≡ true)
  unfolding check_accept validate_image_blob_refs
  check_accept-loaded desk doc_id sid actor row doc h =
      let (r, pending, h1) = >>=-eq-reply (load_pending desk doc_id sid actor) (λ r. latest r) h in
      let (l, loaded, h2) =
        >>=-eq-reply (load_latest s desk.store doc_id actor) (λ l. applies r l) h1 in
      let (fits, h3) =
        guard-eq-reply (all_of (still_applies l.1) r.patch.patches) 409 (images r l) h2 in
      let (_, _, same) =
        >>=-eq-reply (validate_image_blob_refs doc_id r.patch.patches) (λ _. reply (r, l.1)) h3 in
      let answer : (r, l.1) ≡ (row, doc) = reply-injective same in
      let one : r ≡ row = ap (λ x. x.0) answer in
      let other : l.1 ≡ doc = ap (λ x. x.1) answer in
      (
        l.0,
        pending ∙ ap (λ x. reply x) one,
        loaded ∙ ap (λ d. reply (l.0, d)) other,
        ap (λ x. all_of (still_applies x.1) x.0.patch.patches) (sym answer) ∙ fits,
      )
    where
      images :
          SuggestedEdit D → String × CanonicalDocument → Http (SuggestedEdit D × CanonicalDocument)
      images r l = validate_image_blob_refs doc_id r.patch.patches >> reply (r, l.1)

      applies :
          SuggestedEdit D → String × CanonicalDocument → Http (SuggestedEdit D × CanonicalDocument)
      applies r l = guard (all_of (still_applies l.1) r.patch.patches) 409 >> images r l

      latest : SuggestedEdit D → Http (SuggestedEdit D × CanonicalDocument)
      latest r = load_latest s desk.store doc_id actor >>= λ l. applies r l

  pub answer_call-stays :
      (desk : Desk J D) (call : Call D) (sid : String) (row : SuggestedEdit D)
      → find_suggestion desk.suggestions sid ≡ some row
      → is_pending row.status ≡ false
      → find_suggestion (answer_call s env desk call).suggestions sid ≡ some row
  unfolding answer_call accept_suggestion
  answer_call-stays desk (suggest new_id patch_id doc_id body actor) sid row h decided =
      create-stays desk sid new_id patch_id doc_id body actor row h
  answer_call-stays desk (accept k doc_id other actor now) sid row h decided =
      checked-stays k desk sid doc_id now row (check_accept s env desk doc_id other actor) h
        (λ loaded doc e.
          let (_, pending, _, _) = check_accept-loaded desk doc_id other actor loaded doc e in
          not_loaded desk doc_id sid other actor row loaded h decided pending)
  answer_call-stays desk (reject doc_id other actor now) sid row h decided =
      reject-stays desk sid doc_id other actor now row h decided

  -- A suggestion that was accepted or rejected: whatever requests follow, its row stays as it is, and
  -- it is never loaded to be decided again.
  pub decided_stays :
      (calls : List (Call D)) (desk : Desk J D) (sid : String) (row : SuggestedEdit D)
      → find_suggestion desk.suggestions sid ≡ some row
      → is_pending row.status ≡ false
      → (find_suggestion (run s env calls desk).suggestions sid ≡ some row)
        × ((doc_id : String) (actor : Actor) (loaded : SuggestedEdit D)
            → ¬ (load_pending (run s env calls desk) doc_id sid actor ≡ reply loaded))
  unfolding run
  decided_stays [] desk sid row h decided = (
    h,
    λ doc_id actor loaded e.
        let apart = not_loaded desk doc_id sid sid actor row loaded h decided e in
        let same =
          find_suggestion-id desk.suggestions loaded sid
            (load_pending-reply desk doc_id sid actor loaded e).0 in
        false≢true (sym apart ∙ rw same (eq_refl sid)),
  )
  decided_stays (call ∷ calls) desk sid row h decided =
      decided_stays calls (answer_call s env desk call) sid row
        (answer_call-stays desk call sid row h decided) decided
