-- ===== src/Batches/Remediate.antt =====
-- services/provenance/accessibility.py (backend/src/docos): the operations that raise the
-- accessibility of a document, and the route that commits them.
use cross_format_documment.Base.{
  ℕ, suc, String, some, Bool, true, false, List, [], ◌∷◌, ◌++◌, eqb, leb, if◌then◌else◌,
}
use cross_format_documment.Base.Int.{ℤ, pos, negsuc}
use cross_format_documment.Base.Lists.{length, contains}
use cross_format_documment.Base.Result.{Result, ok, err, diverges, ◌>>=◌}
use cross_format_documment.Base.Http.{Http, reply, fail}
use cross_format_documment.Model.{
  Value, null, flag, int, str, truthy, Node, NodeType, CanonicalDocument, attr, is_a,
}
use cross_format_documment.Access.Owner.{Actor}
use cross_format_documment.Patch.Op.{Env, Patch}
use cross_format_documment.Versions.Store.{Serializer, Store}
use cross_format_documment.Versions.Routes.{load_latest}
use cross_format_documment.Versions.Edits.{ReversiblePatch, PatchResponse, Outcome}
use cross_format_documment.Diff.Blocks.{known_nodes, children_of}
use cross_format_documment.Batches.Commit.{commit_batch}

-- `_ALT_PLACEHOLDER`
abbrev pub alt_placeholder : String
alt_placeholder = "(image — description needed)"

-- `f"H{min(max(n, 1), 6)}"`
abbrev pub level_tag : ℤ → String
level_tag (negsuc n) = "H1"
level_tag (pos n) =
    if leb n 1
    then "H1"
    else if eqb n 2
    then "H2"
    else if eqb n 3
    then "H3"
    else if eqb n 4
    then "H4"
    else if eqb n 5
    then "H5"
    else "H6"

abbrev pub is_null : Value → Bool
is_null null = true
is_null v = false

-- `int` of what is neither a number nor a truth value (a text, a float) is `other_int`.
module _ (other_int : Value → Result ℤ) where
  abbrev pub int_of : Value → Result ℤ
  int_of (int n) = ok n
  int_of (flag true) = ok (pos 1)
  int_of (flag false) = ok (pos 0)
  int_of v = other_int v

  -- `int(level or 1)`, as a tag
  unfoldable pub tag_of_level : Value → Result String
  unfolding truthy
  tag_of_level v = int_of (if truthy v then v else int (pos 1)) >>= λ n. ok (level_tag n)

  abbrev pub heading_tag : Node → Result String
  heading_tag node = tag_of_level (attr node "level" (int (pos 1)))

module _ {D : Type 0} where
  -- The operation on one heading, in front of those on the nodes behind it.
  abbrev pub with_tag : Node → String → List (Patch D) → List (Patch D)
  with_tag node tag ops =
      if contains tag node.tags
      then ops
      else Patch.retag (some node.id) (node.tags ++ tag ∷ []) ∷ ops

  unfoldable pub tag_ops : (Value → Result ℤ) → List Node → Result (List (Patch D))
  unfolding tag_of_level
  tag_ops other_int [] = ok []
  tag_ops other_int (node ∷ nodes) =
      let later = tag_ops other_int nodes in
      if is_a NodeType.heading node
      then (heading_tag other_int node >>= λ tag. later >>= λ ops. ok (with_tag node tag ops))
      else later

  -- The operations on the blocks of the root, the first of them with this place.
  unfoldable pub order_ops : ℕ → List Node → List (Patch D)
  order_ops index [] = []
  order_ops index (child ∷ children) =
      let later = order_ops (suc index) children in
      if is_null (attr child "reading_order" null)
      then Patch.update_node (some child.id) (("reading_order", int (pos index)) ∷ []) ∷ later
      else later

  unfoldable pub alt_ops : List Node → List (Patch D)
  unfolding truthy
  alt_ops [] = []
  alt_ops (node ∷ nodes) =
      let later = alt_ops nodes in
      if is_a NodeType.image node
      then if truthy (attr node "alt_text" null)
        then later
        else Patch.update_node (some node.id) (("alt_text", str alt_placeholder) ∷ []) ∷ later
      else later

  -- `remediation_ops`, with the keys of the registry in their order
  unfoldable pub remediation_ops :
      (Value → Result ℤ) → List String → CanonicalDocument → Result (List (Patch D))
  unfolding known_nodes children_of tag_ops order_ops alt_ops
  remediation_ops other_int ks doc = tag_ops other_int (known_nodes doc ks) >>= λ tags.
      ok (tags ++ order_ops 0 (children_of doc doc.root_id) ++ alt_ops (known_nodes doc ks))

-- `intent_of` is the text of the intent with the number of the operations in it.
module _ {J D : Type 0} (s : Serializer J) (env : Env D) (other_int : Value → Result ℤ)
    (intent_of : ℕ → String) where
  -- The route behind the operations.
  abbrev pub commit_remediation :
      ℕ
      → String
      → Store J
      → String
      → CanonicalDocument
      → Result (List (Patch D))
      → Outcome J PatchResponse
  unfolding commit_batch
  commit_remediation drawn patch_id store doc_id doc (err diverges) = err diverges
  commit_remediation drawn patch_id store doc_id doc (err e) = ok (store, fail 500)
  commit_remediation drawn patch_id store doc_id doc (ok ops) =
      let patch : ReversiblePatch D = record {
        id = patch_id;
        patches = ops;
        intent = some (intent_of (length ops));
      } in
      commit_batch s env drawn store doc_id doc patch "accessibility.remediated"
        (("patch_id", str patch_id) ∷ ("ops", int (pos (length ops))) ∷ [])

  abbrev pub remediate_latest :
      ℕ
      → String
      → Store J
      → String
      → (CanonicalDocument → List String)
      → Http (String × CanonicalDocument)
      → Outcome J PatchResponse
  unfolding remediation_ops commit_remediation
  remediate_latest drawn patch_id store doc_id keys (fail c) = ok (store, fail c)
  remediate_latest drawn patch_id store doc_id keys (reply (v, doc)) =
      commit_remediation drawn patch_id store doc_id doc (remediation_ops other_int (keys doc) doc)

  -- `remediate_accessibility`; `keys` gives the keys of a registry in their order
  unfoldable pub remediate_accessibility :
      ℕ
      → String
      → Store J
      → String
      → Actor
      → (CanonicalDocument → List String)
      → Outcome J PatchResponse
  unfolding load_latest remediate_latest
  remediate_accessibility drawn patch_id store doc_id actor keys =
      remediate_latest drawn patch_id store doc_id keys (load_latest s store doc_id actor)
