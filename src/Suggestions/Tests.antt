-- ===== src/Suggestions/Tests.antt =====
-- A suggestion on a small document that is accepted.
use cross_format_documment.Base.{String, none, some, true, [], ◌∷◌, ◌≡◌, refl}
use cross_format_documment.Base.Result.{Result, ok}
use cross_format_documment.Base.Http.{Http, reply}
use cross_format_documment.Model.{Node, CanonicalDocument}
use cross_format_documment.Access.Owner.{Actor}
use cross_format_documment.Patch.Op.{Patch}
use cross_format_documment.Patch.Fields
use cross_format_documment.Patch.Execute.{Applied, apply, apply_one}
use cross_format_documment.Versions.Store.{canonical_hash}
use cross_format_documment.Versions.Routes.{current_id, load_latest, persist_document}
use cross_format_documment.Versions.Samples.{plain, ann, bare_env, uploaded}
use cross_format_documment.Suggestions.{
  Status, SuggestedEdit, SuggestRequest, Desk, find_suggestion, replace_suggestion, is_pending,
  load_pending, create_suggestion, accept_suggestion,
}
use cross_format_documment.Suggestions.Decided.{accept, reject, desk_of, run, decided_stays}
use cross_format_documment.Suggestions.Accepted.{accepted_row, Committed, accepted_is_applied}

abbrev scrub : SuggestRequest Node
scrub = record { ops = Patch.sanitize_metadata [] ∷ []; intent = none; author = some "bob" }

abbrev proposed : Desk CanonicalDocument Node
unfolding create_suggestion uploaded
proposed =
    (create_suggestion plain bare_env "s1" "p1" (record { store = uploaded; suggestions = [] }) "d"
      scrub ann).0

abbrev waiting : SuggestedEdit Node
waiting = record {
  id = "s1";
  document_id = "d";
  author = some "bob";
  intent = none;
  patch = record { id = "p1"; patches = scrub.ops; intent = none };
  status = Status.pending;
  new_version_id = none;
  decided_at = none;
}

abbrev settled : Result (Desk CanonicalDocument Node × Http (SuggestedEdit Node))
unfolding accept_suggestion proposed
settled = accept_suggestion plain bare_env 0 proposed "d" "s1" ann 7

abbrev settled_desk : Desk CanonicalDocument Node
unfolding settled
settled_desk = desk_of proposed settled

abbrev settled_row : SuggestedEdit Node
settled_row = record waiting {
  status = Status.accepted;
  new_version_id = some "sha256:0d";
  decided_at = some 7;
}

settled_replies : settled ≡ ok (settled_desk, reply settled_row)
unfolding settled settled_desk proposed accept_suggestion create_suggestion uploaded
    persist_document apply_one Fields.sanitize_metadata
settled_replies = refl

accepted_is_applied_example :
    (row : SuggestedEdit Node) × (v : String) × (doc : CanonicalDocument) × (done : Applied Node)
    × (find_suggestion proposed.suggestions "s1" ≡ some row)
    × (is_pending row.status ≡ true)
    × (load_latest plain proposed.store "d" ann ≡ reply (v, doc))
    × (apply bare_env 0 doc row.patch.patches ≡ ok done)
    × (settled_row ≡ accepted_row plain bare_env row done.doc 7)
    × (find_suggestion settled_desk.suggestions "s1" ≡ some settled_row)
    × (current_id settled_desk.store "d" ann ≡ reply (canonical_hash plain done.doc))
    × Committed plain bare_env proposed.store.versions settled_desk.store.versions done.doc
        row.patch.id
unfolding settled
accepted_is_applied_example =
    accepted_is_applied plain bare_env 0 proposed "d" "s1" ann 7 settled_desk settled_row
      settled_replies

settled_found : find_suggestion settled_desk.suggestions "s1" ≡ some settled_row
unfolding settled settled_desk proposed accept_suggestion create_suggestion uploaded
    persist_document apply_one Fields.sanitize_metadata find_suggestion replace_suggestion
settled_found = refl

-- Rejecting it afterwards, and accepting it again, are refused.
decided_stays_example :
    (find_suggestion
        (run plain bare_env
          (reject "d" "s1" ann 8 ∷ accept 0 "d" "s1" ann 9 ∷ [])
          settled_desk).suggestions
        "s1"
      ≡ some settled_row)
    × ((doc_id : String) (actor : Actor) (loaded : SuggestedEdit Node)
        → ¬ (
            load_pending
              (run plain bare_env
                (reject "d" "s1" ann 8 ∷ accept 0 "d" "s1" ann 9 ∷ [])
                settled_desk)
              doc_id
              "s1"
              actor
            ≡ reply loaded))
decided_stays_example =
    decided_stays plain bare_env (reject "d" "s1" ann 8 ∷ accept 0 "d" "s1" ann 9 ∷ []) settled_desk
      "s1" settled_row settled_found refl
