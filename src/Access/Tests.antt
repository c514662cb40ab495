-- ===== src/Access/Tests.antt =====
-- Ownership at concrete rows.
use cross_format_documment.Base.{ℕ, ◌≤◌, false, [], ◌∷◌, true, String, ◌==◌}
use cross_format_documment.Base.Lists.{get_elem?}
use cross_format_documment.Base.Text.{join}
use cross_format_documment.Access.Owner.{owner_clause, owns, owns-eq-owner_clause}
use cross_format_documment.Access.Claim.{Owners, claim, claimed_row_is_seen}
use cross_format_documment.Access.Share.{
  Share, Protected, lookup_share, opened, get_valid_share, token_digest, opened-reply, digest_opens,
}
use cross_format_documment.Base.{none, some, refl, ◌≡◌, ◌↔◌, ◌⊎◌}
use cross_format_documment.Base.Maps.{Map, empty, put}
use cross_format_documment.Base.Http.{reply, fail}
use cross_format_documment.Access.Owner.{
  Actor, Document, Owned, get_owned_document, get_owned_document_lem,
}

abbrev draft : Document
draft = record {
  id = "d1";
  owner_session_id = some "s1";
  owner_user_id = some "u1";
  current_version_id = some "v1";
}

abbrev visitor : Actor
visitor = record { session_id = "s2"; user_id = some "u1" }

abbrev sample_docs : Map Document
sample_docs = put empty "d1" draft

get_owned_document_lem_example :
    ((get_owned_document sample_docs "d1" visitor ≡ reply draft)
      ↔ ((sample_docs "d1" ≡ some draft) × Owned draft visitor))
    × (((d : Document) × (get_owned_document sample_docs "d1" visitor ≡ reply d))
        ⊎ (get_owned_document sample_docs "d1" visitor ≡ fail 404))
get_owned_document_lem_example = get_owned_document_lem sample_docs "d1" visitor draft

owner_sees_it : get_owned_document sample_docs "d1" visitor ≡ reply draft
unfolding get_owned_document
owner_sees_it = refl

stranger_does_not :
    get_owned_document sample_docs "d1" (record { session_id = "s2"; user_id = none }) ≡ fail 404
unfolding get_owned_document
stranger_does_not = refl

abbrev abandoned : Owners
abandoned = record { owner_session_id = some "s1"; owner_user_id = none }

claimed_row_is_seen_example :
    (after : Owners) × (get_elem? (claim "s1" "u1" (abandoned ∷ [])).0 0 ≡ some after)
    × (owner_clause after.owner_session_id after.owner_user_id
          (record { session_id = "s2"; user_id = some "u1" })
        ≡ true)
claimed_row_is_seen_example =
    claimed_row_is_seen "s1" "u1" "s2" (abandoned ∷ []) 0 abandoned refl refl refl

-- The stand-ins for the HMAC, the sealing and the check of a password.
abbrev both_texts : String → String → String
both_texts key text = join key text

abbrev three_texts : String → String → String → String
three_texts key context text = join key text

abbrev link : Share
link = record {
  id = "x";
  document_id = "d1";
  token = "hmac-sha256:kt";
  token_ciphertext = some "kt";
  pin_hash = some "1234";
  expires_at = some 5;
  revoked = false;
}

link_opens :
    opened both_texts three_texts (λ pin hash. pin == hash) "k" sample_docs (some "1234") 4 "t" link
    ≡ reply (record { share = link; document = draft })
unfolding opened
link_opens = refl

-- A row from before tokens were sealed.
abbrev clear_link : Share
clear_link = record {
  id = "x";
  document_id = "d1";
  token = "t";
  token_ciphertext = none;
  pin_hash = some "1234";
  expires_at = some 5;
  revoked = false;
}

clear_link_opens :
    opened both_texts three_texts
      (λ pin hash. pin == hash)
      "k"
      sample_docs
      (some "1234")
      4
      "t"
      clear_link
    ≡ reply (record { share = link; document = draft })
unfolding opened
clear_link_opens = refl

opened-reply_example :
    (clear_link.revoked ≡ false)
    × ((clear_link.expires_at ≡ none) ⊎ ((e : ℕ) × (clear_link.expires_at ≡ some e) × (4 ≤ e)))
    × ((clear_link.pin_hash ≡ none)
        ⊎ ((h : String) × (p : String) × (clear_link.pin_hash ≡ some h)
            × (some "1234" ≡ some p)
            × ((p == "") ≡ false)
            × ((p == h) ≡ true)))
    × (sample_docs "d1" ≡ some draft)
    × ((v : String) × (draft.current_version_id ≡ some v))
    × Protected both_texts three_texts (λ pin hash. pin == hash) "k" "t" clear_link link
opened-reply_example =
    opened-reply both_texts three_texts (λ pin hash. pin == hash) "k" sample_docs (some "1234") 4
      "t" clear_link (record { share = link; document = draft }) clear_link_opens

link_token : link.token ≡ token_digest both_texts three_texts (λ pin hash. pin == hash) "k" "t"
unfolding token_digest
link_token = refl

abbrev other_link : Share
other_link = record link { id = "y"; token = "hmac-sha256:ku" }

digest_opens_example :
    get_valid_share both_texts three_texts
      (λ pin hash. pin == hash)
      "k"
      (other_link ∷ link ∷ [])
      sample_docs
      (some "1234")
      4
      "hmac-sha256:kt"
    ≡ get_valid_share both_texts three_texts
        (λ pin hash. pin == hash)
        "k"
        (other_link ∷ link ∷ [])
        sample_docs
        (some "1234")
        4
        "t"
unfolding token_digest lookup_share
digest_opens_example =
    digest_opens both_texts three_texts (λ pin hash. pin == hash) "k" sample_docs (some "1234") 4
      "t" "kt" link (other_link ∷ []) [] link_token refl refl refl

owns-eq-owner_clause_example :
    owns draft visitor ≡ owner_clause draft.owner_session_id draft.owner_user_id visitor
owns-eq-owner_clause_example = owns-eq-owner_clause draft visitor
