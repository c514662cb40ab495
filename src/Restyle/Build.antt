-- ===== src/Restyle/Build.antt =====
-- `build_restyle_patch`, and `restyle` of routes_patches.py.
use Prim.Native.Char.{Char}
use cross_format_documment.Base.{
  ℕ, zero, suc, String, ◌==◌, Option, none, some, Bool, true, false, not, ◌||◌, List, [], ◌∷◌, ◌++◌,
  if◌then◌else◌,
}
use cross_format_documment.Base.Int.{pos}
use cross_format_documment.Base.Lists.{length, contains, any_of}
use cross_format_documment.Base.Result.{
  Result, ok, err, value_error, validation_error, diverges, ◌>>=◌,
}
use cross_format_documment.Base.Http.{Http, reply, fail}
use cross_format_documment.Base.Text.{chars}
use cross_format_documment.Base.Prefix.{starts_with_chars}
use cross_format_documment.Model.{
  Value, null, flag, int, str, truthy, Node, NodeType, CanonicalDocument, attr, is_a, same_type,
}
use cross_format_documment.Redaction.{is_redacted}
use cross_format_documment.Access.Owner.{Actor}
use cross_format_documment.Patch.Op.{Env, Patch}
use cross_format_documment.Diff.Blocks.{walk}
use cross_format_documment.Versions.Store.{Serializer, Store}
use cross_format_documment.Versions.Routes.{load_latest}
use cross_format_documment.Versions.Edits.{ReversiblePatch, Outcome, is_nil, apply_and_commit}

pub data Scope : Type 0 where
  all headings body matching : Scope

-- The size is a float, which the code passes on.
pub record RestyleStyle : Type 0 where
  pub bold : Option Bool
  pub italic : Option Bool
  pub underline : Option Bool
  pub font : Option String
  pub size : Option Value
  pub color : Option String

pub record RestyleRequest : Type 0 where
  pub scope : Scope
  pub find : Option String
  pub style : RestyleStyle

pub record RestyleResponse : Type 0 where
  pub doc_id : String
  pub applied : Bool
  pub nodes_changed : ℕ
  pub new_version_id : Option String

-- `_STYLE_FIELDS`
abbrev pub style_fields : List String
style_fields = "bold" ∷ "italic" ∷ "underline" ∷ "font" ∷ "size" ∷ "color" ∷ []

abbrev pub entry : {A : Type 0} → String → (A → Value) → Option A → List (String × Value)
entry name value none = []
entry name value (some a) = (name, value a) ∷ []

-- `payload`
unfoldable pub payload : RestyleStyle → List (String × Value)
payload s =
    entry "bold" flag s.bold
    ++ (entry "italic" flag s.italic
        ++ (entry "underline" flag s.underline
            ++ (entry "font" str s.font
                ++ (entry "size" (λ v. v) s.size ++ entry "color" str s.color))))

-- `find in text`
abbrev pub occurs_in : List Char → List Char → Bool
occurs_in find [] = is_nil find
occurs_in find (c ∷ cs) = starts_with_chars find (c ∷ cs) || occurs_in find cs

-- `_ancestor_types`: the types of a node and of its ancestors. `diverges` where the rounds run out.
unfoldable pub types_from :
    ℕ → CanonicalDocument → List String → Option String → Result (List NodeType)
types_from zero doc seen current = err diverges
types_from (suc rounds) doc seen none = ok []
types_from (suc rounds) doc seen (some i) = elim (doc.nodes i) [
  | none ↦ ok []
  | some node ↦
      let above = types_from rounds doc (i ∷ seen) node.parent_id in
      if i == "" || contains i seen then ok [] else (above >>= λ types. ok (node.type ∷ types))
]

abbrev pub has_heading : List NodeType → Bool
has_heading types = any_of (same_type NodeType.heading) types

-- `same_value` is `==` of two values, and `in_other` is `in` on what is no text.
module _ (same_value : Value → Value → Bool) (in_other : String → Value → Result Bool) (rounds : ℕ)
    (doc : CanonicalDocument) where
  -- `find in (getattr(node, "text", "") or "")` behind `bool(find)`
  unfoldable pub matches : Option String → Node → Result Bool
  unfolding truthy
  matches none node = ok false
  matches (some find) node =
      let v = attr node "text" (str "") in
      let found : Result Bool = elim v [
        | str s ↦ ok (occurs_in (chars find) (chars s))
        | w ↦ in_other find w
      ] in
      if find == "" then ok false else if truthy v then found else ok (occurs_in (chars find) [])

  -- `_in_scope`
  unfoldable pub in_scope : Scope → Option String → Node → Result Bool
  unfolding matches types_from
  in_scope Scope.all find node = ok true
  in_scope Scope.matching find node = matches find node
  in_scope Scope.headings find node =
      types_from rounds doc [] (some node.id) >>= λ types. ok (has_heading types)
  in_scope Scope.body find node =
      types_from rounds doc [] (some node.id) >>= λ types. ok (not (has_heading types))

  -- `any(getattr(node, field, None) != value for ...)`
  abbrev pub is_other : List (String × Value) → Node → Bool
  is_other items node = any_of (λ item. not (same_value (attr node item.0 null) item.1)) items

module _ (same_value : Value → Value → Bool) (in_other : String → Value → Result Bool) (rounds : ℕ)
    (doc : CanonicalDocument) (scope : Scope) (find : Option String) (items : List (String × Value))
    {D : Type 0} where
  -- The operation on a run that is in scope, if something changes.
  abbrev pub with_op : Node → Bool → List (Patch D) → List (Patch D)
  with_op node true ops =
      if is_other same_value in_other rounds doc items node
      then Patch.update_node (some node.id) items ∷ ops
      else ops
  with_op node false ops = ops

  -- One run, by whether it is redacted, in front of what is made of the nodes behind it.
  unfoldable pub restyle_run :
      Node → Option Bool → Result (List (Patch D)) → Result (List (Patch D))
  unfolding in_scope
  restyle_run node none later = err diverges
  restyle_run node (some true) later = later
  restyle_run node (some false) later =
      in_scope same_value in_other rounds doc scope find node >>= λ within.
      later >>= λ ops. ok (with_op node within ops)

  unfoldable pub restyle_nodes : List Node → Result (List (Patch D))
  unfolding is_redacted restyle_run
  restyle_nodes [] = ok []
  restyle_nodes (node ∷ nodes) =
      let later = restyle_nodes nodes in
      if is_a NodeType.run node
      then restyle_run node (is_redacted rounds doc (some node.id)) later
      else later

-- `scope == "matching" and not find`
abbrev pub lacks_find : Scope → Option String → Bool
lacks_find Scope.matching none = true
lacks_find Scope.matching (some find) = find == ""
lacks_find scope find = false

-- `build_restyle_patch`: its operations
unfoldable pub restyle_ops :
    {D : Type 0}
    → (Value → Value → Bool)
    → (String → Value → Result Bool)
    → ℕ
    → CanonicalDocument
    → RestyleRequest
    → Result (List (Patch D))
unfolding payload walk restyle_nodes
restyle_ops same_value in_other rounds doc request =
    let items = payload request.style in
    let ops = walk rounds doc (doc.root_id ∷ []) >>= λ nodes.
    restyle_nodes same_value in_other rounds doc request.scope request.find items nodes in
    if is_nil items
    then err value_error
    else if lacks_find request.scope request.find
    then err value_error
    else ops

abbrev pub scope_name : Scope → String
scope_name Scope.all = "all"
scope_name Scope.headings = "headings"
scope_name Scope.body = "body"
scope_name Scope.matching = "matching"

-- `intent_of` is the text of the intent with scope and payload in it.
module _ {J D : Type 0} (s : Serializer J) (env : Env D) (same_value : Value → Value → Bool)
    (in_other : String → Value → Result Bool) (rounds : ℕ)
    (intent_of : Scope → List (String × Value) → String) where
  abbrev pub restyle_answer :
      String
      → ℕ
      → Store J
      → Result (Store J × Option String × CanonicalDocument)
      → Outcome J RestyleResponse
  restyle_answer doc_id changed store (err diverges) = err diverges
  restyle_answer doc_id changed store (err e) = ok (store, fail 500)
  restyle_answer doc_id changed store (ok (after, new_version_id, doc)) = ok (
    after,
    reply (record {
      doc_id = doc_id;
      applied = elim new_version_id [ none ↦ false | some _ ↦ true ];
      nodes_changed = changed;
      new_version_id = new_version_id;
    }),
  )

  -- The route behind the operations; `except ValueError` stands around their making only.
  unfoldable pub commit_restyle :
      ℕ
      → String
      → Store J
      → String
      → CanonicalDocument
      → RestyleRequest
      → Actor
      → Result (List (Patch D))
      → Outcome J RestyleResponse
  unfolding apply_and_commit payload
  commit_restyle drawn patch_id store doc_id doc request actor (err diverges) = err diverges
  commit_restyle drawn patch_id store doc_id doc request actor (err value_error) =
      ok (store, fail 422)
  commit_restyle drawn patch_id store doc_id doc request actor (err validation_error) =
      ok (store, fail 422)
  commit_restyle drawn patch_id store doc_id doc request actor (err e) = ok (store, fail 500)
  commit_restyle drawn patch_id store doc_id doc request actor (ok ops) =
      let patch : ReversiblePatch D = record {
        id = patch_id;
        patches = ops;
        intent = some (intent_of request.scope (payload request.style));
      } in
      restyle_answer doc_id (length ops) store (
        apply_and_commit s env drawn store doc_id doc patch actor "text.restyled" (
          ("scope", str (scope_name request.scope))
          ∷ ("nodes_changed", int (pos (length ops)))
          ∷ []))

  unfoldable pub restyle_latest :
      ℕ
      → String
      → Store J
      → String
      → RestyleRequest
      → Actor
      → Http (String × CanonicalDocument)
      → Outcome J RestyleResponse
  unfolding restyle_ops commit_restyle
  restyle_latest drawn patch_id store doc_id request actor (fail c) = ok (store, fail c)
  restyle_latest drawn patch_id store doc_id request actor (reply (v, doc)) =
      commit_restyle drawn patch_id store doc_id doc request actor
        (restyle_ops same_value in_other rounds doc request)

  -- `restyle`
  unfoldable pub restyle :
      ℕ → String → Store J → String → RestyleRequest → Actor → Outcome J RestyleResponse
  unfolding load_latest restyle_latest
  restyle drawn patch_id store doc_id request actor =
      restyle_latest drawn patch_id store doc_id request actor (load_latest s store doc_id actor)
