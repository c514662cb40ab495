-- ===== src/Suggestions.antt =====
-- api/routes_suggestions.py (backend/src/docos): proposed patches that are stored, and applied when
-- they are accepted.
pub mod Loading
pub mod Decided
pub mod Accepted
mod Tests
use cross_format_documment.Base.{
  ℕ, String, ◌==◌, Option, none, some, Bool, true, false, not, List, [], ◌∷◌, ◌++◌, if◌then◌else◌,
}
use cross_format_documment.Base.Int.{pos}
use cross_format_documment.Base.Lists.{length, all_of, keep}
use cross_format_documment.Base.Maps.{has}
use cross_format_documment.Base.Result.{Result, ok, err, Error, diverges}
use cross_format_documment.Base.Http.{Http, reply, fail, found, guard, ◌>>=◌, ◌>>◌}
use cross_format_documment.Model.{str, int, CanonicalDocument}
use cross_format_documment.Access.Owner.{Actor, get_owned_document}
use cross_format_documment.Patch.Op.{Env, Patch}
use cross_format_documment.Patch.Execute.{Applied, apply}
use cross_format_documment.Versions.Store.{Serializer, Store, put_version}
use cross_format_documment.Versions.Routes.{load_latest}
use cross_format_documment.Versions.Edits.{
  ReversiblePatch, is_nil, target_id, validate_image_blob_refs, log_edit,
}

pub data Status : Type 0 where
  pending accepted rejected : Status

pub record SuggestedEdit (D : Type 0) : Type 0 where
  pub id : String
  pub document_id : String
  pub author : Option String
  pub intent : Option String
  pub patch : ReversiblePatch D
  pub status : Status
  pub new_version_id : Option String
  pub decided_at : Option ℕ

pub record SuggestRequest (D : Type 0) : Type 0 where
  pub ops : List (Patch D)
  pub intent : Option String
  pub author : Option String

-- The rows of versions and documents, and those of suggestions in the order of their creation.
pub record Desk (J D : Type 0) : Type 0 where
  pub store : Store J
  pub suggestions : List (SuggestedEdit D)

-- `session.get(SuggestedEdit, sid)`
unfoldable pub find_suggestion :
    {D : Type 0} → List (SuggestedEdit D) → String → Option (SuggestedEdit D)
find_suggestion [] sid = none
find_suggestion (s ∷ rows) sid =
    let later = find_suggestion rows sid in if s.id == sid then some s else later

-- The row with the id, with new columns.
unfoldable pub replace_suggestion :
    {D : Type 0} → List (SuggestedEdit D) → SuggestedEdit D → List (SuggestedEdit D)
replace_suggestion [] new = []
replace_suggestion (s ∷ rows) new =
    let later = replace_suggestion rows new in if s.id == new.id then new ∷ rows else s ∷ later

abbrev pub is_pending : Status → Bool
is_pending Status.pending = true
is_pending _ = false

-- The text of a status in its row.
abbrev pub status_name : Status → String
status_name Status.pending = "pending"
status_name Status.accepted = "accepted"
status_name Status.rejected = "rejected"

-- `op.op in _TARGETED_OPS`, the set of this module
abbrev pub is_targeted : {D : Type 0} → Patch D → Bool
is_targeted (Patch.set_text t v) = true
is_targeted (Patch.update_node t p) = true
is_targeted (Patch.retag t tags) = true
is_targeted (Patch.redact t) = true
is_targeted (Patch.unredact t) = true
is_targeted (Patch.remove_node t) = true
is_targeted (Patch.move_node t p i) = true
is_targeted (Patch.replace_image t p) = true
is_targeted (Patch.set_image_attrs t p) = true
is_targeted op = false

-- The test of an operation that is proposed.
abbrev pub may_propose : {D : Type 0} → CanonicalDocument → Patch D → Bool
may_propose doc op = elim (target_id op) [ none ↦ not (is_targeted op) | some t ↦ has doc.nodes t ]

-- The test of one that is accepted.
abbrev pub still_applies : {D : Type 0} → CanonicalDocument → Patch D → Bool
still_applies doc op = elim (target_id op) [
  | none ↦ not (is_targeted op)
  | some t ↦ if is_targeted op then has doc.nodes t else true
]

-- `if status:` the rows of that status
abbrev pub with_status :
    {D : Type 0} → Option String → List (SuggestedEdit D) → List (SuggestedEdit D)
with_status none rows = rows
with_status (some t) rows = if t == "" then rows else keep (λ s. status_name s.status == t) rows

-- `list_suggestions`
unfoldable pub list_suggestions :
    {J D : Type 0} → Desk J D → String → Option String → Actor → Http (List (SuggestedEdit D))
unfolding get_owned_document
list_suggestions desk doc_id status actor = do
  _ ← get_owned_document desk.store.docs doc_id actor
  reply (with_status status (keep (λ s. s.document_id == doc_id) desk.suggestions))

-- `_load_pending`
unfoldable pub load_pending :
    {J D : Type 0} → Desk J D → String → String → Actor → Http (SuggestedEdit D)
unfolding get_owned_document find_suggestion
load_pending desk doc_id sid actor = do
  _ ← get_owned_document desk.store.docs doc_id actor
  s ← found (find_suggestion desk.suggestions sid) 404
  guard (s.document_id == doc_id) 404
  guard (is_pending s.status) 409
  reply s

module _ {J D : Type 0} (s : Serializer J) (env : Env D) where
  -- The checks of `create_suggestion`.
  unfoldable pub check_proposal : Desk J D → String → SuggestRequest D → Actor → Http (Unit {0})
  unfolding load_latest validate_image_blob_refs
  check_proposal desk doc_id body actor = do
    latest ← load_latest s desk.store doc_id actor
    guard (not (is_nil body.ops)) 422
    guard (all_of (may_propose latest.1) body.ops) 422
    validate_image_blob_refs doc_id body.ops

  -- `create_suggestion`, with the two ids that are drawn
  unfoldable pub create_suggestion :
      String
      → String
      → Desk J D
      → String
      → SuggestRequest D
      → Actor
      → Desk J D × Http (SuggestedEdit D)
  unfolding check_proposal
  create_suggestion sid patch_id desk doc_id body actor =
      let row : SuggestedEdit D = record {
        id = sid;
        document_id = doc_id;
        author = body.author;
        intent = body.intent;
        patch = record { id = patch_id; patches = body.ops; intent = body.intent };
        status = Status.pending;
        new_version_id = none;
        decided_at = none;
      } in
      elim (check_proposal desk doc_id body actor) [
        | fail c ↦ (desk, fail c)
        | reply _ ↦ (
          record {
            store =
                log_edit desk.store doc_id "suggestion.created"
                  (elim body.author [ none ↦ "api" | some a ↦ if a == "" then "api" else a ])
                  (("suggestion_id", str sid) ∷ ("ops", int (pos (length body.ops))) ∷ []);
            suggestions = desk.suggestions ++ row ∷ [];
          },
          reply row,
        )
      ]

  -- What `accept_suggestion` stores for the document that the executor made.
  unfoldable pub settle_accepted :
      Desk J D
      → String
      → SuggestedEdit D
      → ℕ
      → Result (Applied D)
      → Result (Desk J D × Http (SuggestedEdit D))
  unfolding put_version
  settle_accepted desk doc_id row now (err diverges) = err diverges
  settle_accepted desk doc_id row now (err e) = ok (desk, fail 500)
  settle_accepted desk doc_id row now (ok done) =
      let stored = put_version s desk.store doc_id done.doc (some row.patch.id) in
      let decided : SuggestedEdit D = record row {
        status = Status.accepted;
        new_version_id = some stored.1;
        decided_at = some now;
      } in
      ok (
        record {
          store = log_edit stored.0 doc_id "suggestion.accepted" "api" (
              ("suggestion_id", str row.id)
              ∷ ("patch_id", str row.patch.id)
              ∷ ("version", str stored.1)
              ∷ []);
          suggestions = replace_suggestion desk.suggestions decided;
        },
        reply decided,
      )

  -- The checks of `accept_suggestion`: the pending suggestion and the latest version.
  unfoldable pub check_accept :
      Desk J D → String → String → Actor → Http (SuggestedEdit D × CanonicalDocument)
  unfolding load_pending load_latest validate_image_blob_refs
  check_accept desk doc_id sid actor = do
    row ← load_pending desk doc_id sid actor
    latest ← load_latest s desk.store doc_id actor
    guard (all_of (still_applies latest.1) row.patch.patches) 409
    validate_image_blob_refs doc_id row.patch.patches
    reply (row, latest.1)

  unfoldable pub accept_checked :
      ℕ
      → Desk J D
      → String
      → ℕ
      → Http (SuggestedEdit D × CanonicalDocument)
      → Result (Desk J D × Http (SuggestedEdit D))
  unfolding apply settle_accepted
  accept_checked drawn desk doc_id now (fail c) = ok (desk, fail c)
  accept_checked drawn desk doc_id now (reply (row, doc)) =
      settle_accepted desk doc_id row now (apply env drawn doc row.patch.patches)

  -- `accept_suggestion` at the time `now`
  unfoldable pub accept_suggestion :
      ℕ → Desk J D → String → String → Actor → ℕ → Result (Desk J D × Http (SuggestedEdit D))
  unfolding check_accept accept_checked
  accept_suggestion drawn desk doc_id sid actor now =
      accept_checked drawn desk doc_id now (check_accept desk doc_id sid actor)

-- `reject_suggestion`
unfoldable pub reject_suggestion :
    {J D : Type 0} → Desk J D → String → String → Actor → ℕ → Desk J D × Http (SuggestedEdit D)
unfolding load_pending replace_suggestion
reject_suggestion desk doc_id sid actor now = elim (load_pending desk doc_id sid actor) [
  | fail c ↦ (desk, fail c)
  | reply row ↦
      let decided = record row { status = Status.rejected; decided_at = some now } in
      (
        record {
          store =
              log_edit desk.store doc_id "suggestion.rejected" "api"
                (("suggestion_id", str sid) ∷ []);
          suggestions = replace_suggestion desk.suggestions decided;
        },
        reply decided,
      )
]
