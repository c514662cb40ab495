-- ===== src/Replace/Plan.antt =====
-- `plan_find_replace`, and the route that commits what it plans.
use Prim.Native.Char.{Char, code}
use cross_format_documment.Base.{
  ℕ, ◌+◌, ◌*◌, String, ◌==◌, Option, none, some, Bool, true, false, List, [], ◌∷◌, map, ltb, eqb,
  if◌then◌else◌,
}
use cross_format_documment.Base.Int.{pos}
use cross_format_documment.Base.Lists.{length}
use cross_format_documment.Base.Result.{Result, ok, err, type_error, diverges, ◌>>=◌}
use cross_format_documment.Base.Http.{Http, reply, fail}
use cross_format_documment.Base.Text.{chars, join}
use cross_format_documment.Model.{str, int, truthy, Node, NodeType, CanonicalDocument, attr, is_a}
use cross_format_documment.Redaction.{is_redacted}
use cross_format_documment.Access.Owner.{Actor}
use cross_format_documment.Patch.Op.{Env, Patch}
use cross_format_documment.Versions.Store.{Serializer, Store}
use cross_format_documment.Versions.Routes.{load_latest}
use cross_format_documment.Versions.Edits.{ReversiblePatch, Outcome, apply_and_commit}
use cross_format_documment.Replace.Matching.{Alphabet, Pattern, count_matches, substitute}

pub record Replacement : Type 0 where
  pub node_id : String
  pub before : String
  pub after : String
  pub count : ℕ

-- `FindReplaceRequest`
pub record FindReplaceRequest : Type 0 where
  pub find : String
  pub replace : String
  pub match_case : Bool
  pub whole_word : Bool

pub record FindReplaceResponse : Type 0 where
  pub doc_id : String
  pub applied : Bool
  pub occurrences : ℕ
  pub nodes_changed : ℕ
  pub new_version_id : Option String

abbrev pub pattern_of : FindReplaceRequest → Pattern
pattern_of body = record {
  find = chars body.find;
  match_case = body.match_case;
  whole_word = body.whole_word;
}

-- `getattr(node, "text", "") or ""`, on which the expression is run: other values than texts raise
unfoldable pub text_of : Node → Result String
unfolding truthy
text_of node =
    let v = attr node "text" (str "") in
    if truthy v then elim v [ str s ↦ ok s | _ ↦ err type_error ] else ok ""

-- `len(text.encode("utf-8"))`
abbrev pub utf8_bytes : List Char → ℕ
utf8_bytes [] = 0
utf8_bytes (c ∷ cs) =
    let k = code c in
    (if ltb k 128 then 1 else if ltb k 2048 then 2 else if ltb k 65536 then 3 else 4)
    + utf8_bytes cs

abbrev pub output_bytes : List Replacement → ℕ
output_bytes [] = 0
output_bytes (r ∷ rs) = utf8_bytes (chars r.after) + output_bytes rs

module _ (alphabet : Alphabet) (rounds : ℕ) (doc : CanonicalDocument)
    (body : FindReplaceRequest) where
  -- A run's replacement in front of the others, if its text has a match.
  abbrev pub with_run : Node → String → List Replacement × ℕ → List Replacement × ℕ
  with_run node text (rs, total) =
      let count = count_matches alphabet (pattern_of body) text in
      if eqb count 0 then (rs, total) else (
        record {
          node_id = node.id;
          before = text;
          after = substitute alphabet (pattern_of body) body.replace text;
          count = count;
        }
            ∷ rs,
        count + total,
      )

  -- A run, by whether it is redacted, in front of what is planned for the nodes behind it.
  unfoldable pub plan_run :
      Node → Option Bool → Result (List Replacement × ℕ) → Result (List Replacement × ℕ)
  unfolding text_of
  plan_run node none later = err diverges
  plan_run node (some true) later = later
  plan_run node (some false) later =
      text_of node >>= λ text. later >>= λ rest. ok (with_run node text rest)

  -- The loop over the values of the registry; nodes of other types are passed over.
  unfoldable pub plan_nodes : List Node → Result (List Replacement × ℕ)
  unfolding is_redacted plan_run
  plan_nodes [] = ok ([], 0)
  plan_nodes (node ∷ nodes) =
      let later = plan_nodes nodes in
      if is_a NodeType.run node
      then plan_run node (is_redacted rounds doc (some node.id)) later
      else later

  unfoldable pub plan_find_replace : List Node → Result (List Replacement × ℕ)
  unfolding plan_nodes
  plan_find_replace nodes = if body.find == "" then ok ([], 0) else plan_nodes nodes

-- the operations of the plan
abbrev pub op_of : {D : Type 0} → Replacement → Patch D
op_of r = Patch.set_text (some r.node_id) (str r.after)

-- `repr` is Python's, on a text.
module _ {J D : Type 0} (s : Serializer J) (env : Env D) (alphabet : Alphabet) (rounds : ℕ)
    (max_upload_mb : ℕ) (repr : String → String) where
  abbrev pub answer :
      String
      → List Replacement
      → ℕ
      → Result (Store J × Option String × CanonicalDocument)
      → Store J
      → Outcome J FindReplaceResponse
  answer doc_id rs occurrences (err diverges) store = err diverges
  answer doc_id rs occurrences (err e) store = ok (store, fail 500)
  answer doc_id rs occurrences (ok (after, new_version_id, doc)) store = ok (
    after,
    reply (record {
      doc_id = doc_id;
      applied = elim new_version_id [ none ↦ false | some _ ↦ true ];
      occurrences = occurrences;
      nodes_changed = length rs;
      new_version_id = new_version_id;
    }),
  )

  -- The route behind the plan: too many matches, and too long a result, are refused.
  unfoldable pub commit_plan :
      ℕ
      → String
      → Store J
      → String
      → CanonicalDocument
      → FindReplaceRequest
      → Actor
      → Result (List Replacement × ℕ)
      → Outcome J FindReplaceResponse
  unfolding apply_and_commit
  commit_plan drawn patch_id store doc_id doc body actor (err diverges) = err diverges
  commit_plan drawn patch_id store doc_id doc body actor (err e) = ok (store, fail 500)
  commit_plan drawn patch_id store doc_id doc body actor (ok (rs, occurrences)) =
      let patch : ReversiblePatch D = record {
        id = patch_id;
        patches = map op_of rs;
        intent = some (join "replace " (repr body.find));
      } in
      let done =
        apply_and_commit s env drawn store doc_id doc patch actor "text.replaced" (
          ("occurrences", int (pos occurrences)) ∷ ("nodes_changed", int (pos (length rs))) ∷ []) in
      if ltb 10000 occurrences
      then ok (store, fail 413)
      else if ltb (max_upload_mb * 1024 * 1024) (output_bytes rs)
      then ok (store, fail 413)
      else answer doc_id rs occurrences done store

  abbrev pub on_latest :
      ℕ
      → String
      → Store J
      → String
      → FindReplaceRequest
      → Actor
      → (CanonicalDocument → List Node)
      → Http (String × CanonicalDocument)
      → Outcome J FindReplaceResponse
  unfolding commit_plan plan_find_replace
  on_latest drawn patch_id store doc_id body actor values (fail c) = ok (store, fail c)
  on_latest drawn patch_id store doc_id body actor values (reply (v, doc)) =
      commit_plan drawn patch_id store doc_id doc body actor
        (plan_find_replace alphabet rounds doc body (values doc))

  -- `find_replace`; `values` gives the values of a registry in their order
  unfoldable pub find_replace :
      ℕ
      → String
      → Store J
      → String
      → FindReplaceRequest
      → Actor
      → (CanonicalDocument → List Node)
      → Outcome J FindReplaceResponse
  unfolding load_latest on_latest
  find_replace drawn patch_id store doc_id body actor values =
      on_latest drawn patch_id store doc_id body actor values (load_latest s store doc_id actor)
