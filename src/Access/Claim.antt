-- ===== src/Access/Claim.antt =====
-- The claim of a session's assets at login, in api/access.py (backend/src/docos).
use cross_format_documment.Base.{
  ℕ, zero, suc, String, eq_refl, Option, none, some, Bool, true, false, List, [], ◌∷◌, ◌≡◌, arith,
  if◌then◌else◌, subst, sym,
}
use cross_format_documment.Base.Lists.{get_elem?}
use cross_format_documment.Access.Owner.{same_text, owner_clause}

-- The two owner columns, which the tables share.
pub record Owners : Type 0 where
  pub owner_session_id : Option String
  pub owner_user_id : Option String

-- The tables, in the order in which they are claimed.
pub record Assets : Type 0 where
  pub documents : List Owners
  pub templates : List Owners
  pub fill_profiles : List Owners
  pub clauses : List Owners
  pub signature_requests : List Owners
  pub integration_tokens : List Owners
  pub renewal_reminders : List Owners
  pub document_shares : List Owners
  pub workflow_recipes : List Owners
  pub workflow_runs : List Owners

-- `owner_user_id.is_(None)`
abbrev pub is_none : Option String → Bool
is_none none = true
is_none (some u) = false

unfoldable pub is_claimable : String → Owners → Bool
is_claimable from_session row =
    if same_text row.owner_session_id from_session then is_none row.owner_user_id else false

-- `.values(owner_user_id=to_user)`
abbrev pub taken_by : String → Owners → Owners
taken_by to_user row = record {
  owner_session_id = row.owner_session_id;
  owner_user_id = some to_user;
}

-- `_claim` of one table: the rows afterwards, and how many were claimed.
unfoldable pub claim : String → String → List Owners → List Owners × ℕ
unfolding is_claimable
claim from_session to_user [] = ([], 0)
claim from_session to_user (row ∷ rows) =
    let (after, count) = claim from_session to_user rows in
    if is_claimable from_session row
    then (taken_by to_user row ∷ after, suc count)
    else (row ∷ after, count)

unfoldable pub claim_session_assets : String → String → Assets → Assets × List (String × ℕ)
unfolding claim
claim_session_assets from_session to_user a =
    let (documents, n0) = claim from_session to_user a.documents in
    let (templates, n1) = claim from_session to_user a.templates in
    let (fill_profiles, n2) = claim from_session to_user a.fill_profiles in
    let (clauses, n3) = claim from_session to_user a.clauses in
    let (signature_requests, n4) = claim from_session to_user a.signature_requests in
    let (integration_tokens, n5) = claim from_session to_user a.integration_tokens in
    let (renewal_reminders, n6) = claim from_session to_user a.renewal_reminders in
    let (document_shares, n7) = claim from_session to_user a.document_shares in
    let (workflow_recipes, n8) = claim from_session to_user a.workflow_recipes in
    let (workflow_runs, n9) = claim from_session to_user a.workflow_runs in
    (
      record {
        documents = documents;
        templates = templates;
        fill_profiles = fill_profiles;
        clauses = clauses;
        signature_requests = signature_requests;
        integration_tokens = integration_tokens;
        renewal_reminders = renewal_reminders;
        document_shares = document_shares;
        workflow_recipes = workflow_recipes;
        workflow_runs = workflow_runs;
      },
      ("documents", n0)
          ∷ ("templates", n1)
          ∷ ("fill_profiles", n2)
          ∷ ("clauses", n3)
          ∷ ("signature_requests", n4)
          ∷ ("integration_tokens", n5)
          ∷ ("renewal_reminders", n6)
          ∷ ("document_shares", n7)
          ∷ ("workflow_recipes", n8)
          ∷ ("workflow_runs", n9)
          ∷ [],
    )

is_claimable-free :
    (s : String) (row : Owners)
    → row.owner_session_id ≡ some s
    → row.owner_user_id ≡ none
    → is_claimable s row ≡ true
unfolding is_claimable
is_claimable-free s row a b = ground (arith, a, b, eq_refl s)

-- A row of the session without a user is afterwards seen by the user, from any session.
pub claimed_row_is_seen :
    (s u other : String) (rows : List Owners) (i : ℕ) (row : Owners)
    → get_elem? rows i ≡ some row
    → row.owner_session_id ≡ some s
    → row.owner_user_id ≡ none
    → (after : Owners) × (get_elem? (claim s u rows).0 i ≡ some after)
      × (owner_clause after.owner_session_id after.owner_user_id
            (record { session_id = other; user_id = some u })
          ≡ true)
unfolding claim is_claimable owner_clause
claimed_row_is_seen s u other [] i row e a b = cc
claimed_row_is_seen s u other (r ∷ rows) zero row e a b =
    let same : r ≡ row = cc in
    let free : is_claimable s r ≡ true =
      subst (λ x. is_claimable s x ≡ true) (sym same) (is_claimable-free s row a b) in
    (taken_by u r, ground (arith, free), ground (arith, eq_refl u))
claimed_row_is_seen s u other (r ∷ rows) (suc i) row e a b =
    let (after, found, seen) = claimed_row_is_seen s u other rows i row e a b in
    (after, ground (arith, found), seen)
