-- ===== src/Suggestions/Loading.antt =====
-- What stands in the rows of suggestions, and when one is loaded to be decided.
use cross_format_documment.Base.{
  String, ◌==◌, eq_refl, some, true, false, List, [], ◌∷◌, ◌++◌, ◌≡◌, refl, sym, ◌∙◌, ap, arith,
  false≢true, text-cases, text_eq, inl, inr,
}
use cross_format_documment.Base.Http.{
  Http, reply, found, guard, ◌>>=◌, ◌>>◌, >>=-eq-reply, guard-eq-reply, found-eq-reply,
  reply-injective,
}
use cross_format_documment.Access.Owner.{Actor, get_owned_document}
use cross_format_documment.Suggestions.{
  SuggestedEdit, Desk, find_suggestion, replace_suggestion, is_pending, load_pending,
}

module _ {D : Type 0} where
  pub find_suggestion-append :
      (rows : List (SuggestedEdit D)) (new row : SuggestedEdit D) (sid : String)
      → find_suggestion rows sid ≡ some row
      → find_suggestion (rows ++ new ∷ []) sid ≡ some row
  unfolding find_suggestion
  find_suggestion-append [] new row sid h = cc
  find_suggestion-append (r ∷ rows) new row sid h =
      ground (arith, find_suggestion-append rows new row sid)

  pub find_suggestion-id :
      (rows : List (SuggestedEdit D)) (row : SuggestedEdit D) (sid : String)
      → find_suggestion rows sid ≡ some row
      → row.id ≡ sid
  unfolding find_suggestion
  find_suggestion-id [] row sid h = cc
  find_suggestion-id (r ∷ rows) row sid h =
      ground (arith, text_eq r.id sid, find_suggestion-id rows row sid)

  -- Another suggestion is not touched.
  pub find_suggestion-replace :
      (rows : List (SuggestedEdit D)) (new : SuggestedEdit D) (sid : String)
      → (new.id == sid) ≡ false
      → find_suggestion (replace_suggestion rows new) sid ≡ find_suggestion rows sid
  unfolding find_suggestion replace_suggestion
  find_suggestion-replace [] new sid other = refl
  find_suggestion-replace (r ∷ rows) new sid other =
      ground (arith, text_eq r.id new.id, find_suggestion-replace rows new sid other)

  -- A suggestion that is there is replaced.
  pub find_suggestion-replaced :
      (rows : List (SuggestedEdit D)) (new row : SuggestedEdit D) (sid : String)
      → new.id ≡ sid
      → find_suggestion rows sid ≡ some row
      → find_suggestion (replace_suggestion rows new) sid ≡ some new
  unfolding find_suggestion replace_suggestion
  find_suggestion-replaced [] new row sid e h = cc
  find_suggestion-replaced (r ∷ rows) new row sid e h =
      ground (arith, e, eq_refl sid, find_suggestion-replaced rows new row sid e)

module _ {J D : Type 0} where
  -- What `_load_pending` hands out is there, is the document's, and waits.
  pub load_pending-reply :
      (desk : Desk J D) (doc_id sid : String) (actor : Actor) (row : SuggestedEdit D)
      → load_pending desk doc_id sid actor ≡ reply row
      → (find_suggestion desk.suggestions sid ≡ some row)
        × (row.document_id ≡ doc_id)
        × (is_pending row.status ≡ true)
  unfolding load_pending
  load_pending-reply desk doc_id sid actor row h =
      let (_, _, h1) =
        >>=-eq-reply (get_owned_document desk.store.docs doc_id actor) (λ _. sought) h in
      let (r, there, h2) =
        found-eq-reply (find_suggestion desk.suggestions sid) 404 (λ r. own r) h1 in
      let (same, h3) = guard-eq-reply (r.document_id == doc_id) 404 (waiting r) h2 in
      let (waits, h4) = guard-eq-reply (is_pending r.status) 409 (reply r) h3 in
      let e : r ≡ row = reply-injective h4 in
      (
        there ∙ ap some e,
        sym (ap (λ (x : SuggestedEdit D). x.document_id) e) ∙ text_eq r.document_id doc_id same,
        sym (ap (λ (x : SuggestedEdit D). is_pending x.status) e) ∙ waits,
      )
    where
      waiting : SuggestedEdit D → Http (SuggestedEdit D)
      waiting r = guard (is_pending r.status) 409 >> reply r

      own : SuggestedEdit D → Http (SuggestedEdit D)
      own r = guard (r.document_id == doc_id) 404 >> waiting r

      sought : Http (SuggestedEdit D)
      sought = found (find_suggestion desk.suggestions sid) 404 >>= λ r. own r

  -- A decided suggestion is not the one that is loaded.
  pub not_loaded :
      (desk : Desk J D) (doc_id sid other : String) (actor : Actor) (row loaded : SuggestedEdit D)
      → find_suggestion desk.suggestions sid ≡ some row
      → is_pending row.status ≡ false
      → load_pending desk doc_id other actor ≡ reply loaded
      → (loaded.id == sid) ≡ false
  not_loaded desk doc_id sid other actor row loaded there decided h =
      let (found, _, waits) = load_pending-reply desk doc_id other actor loaded h in
      let id = find_suggestion-id desk.suggestions loaded other found in
      elim (text-cases loaded.id sid) [
        | inl same ↦
            let one : some row ≡ some loaded = sym there ∙ rw (sym id ∙ same) at found in
            let e : row ≡ loaded = cc in
            absurd (
              false≢true
                (sym decided ∙ ap (λ (x : SuggestedEdit D). is_pending x.status) e ∙ waits))
        | inr apart ↦ apart
      ]
