-- ===== src/Patch/Undo/Exact.antt =====
-- The operations whose inverses are exact, and the states in which they are.
use cross_format_documment.Base.{ℕ, String, Option, some, Bool, false, List, [], ◌∷◌, ◌≡◌, subst}
use cross_format_documment.Base.Int.{ℤ}
use cross_format_documment.Base.Lists.{contains}
use cross_format_documment.Base.Result.{ok}
use cross_format_documment.Model.{Value, flag, Node, NodeType, CanonicalDocument}
use cross_format_documment.Patch.Op.{Env, Patch, AttrsPayload}
use cross_format_documment.Patch.Fields.{
  Step, allowed_items, updatable_node_fields, image_keys, page_keys,
}
use cross_format_documment.Patch.Execute.{apply_one}
use cross_format_documment.Patch.Restore.{Present}
use cross_format_documment.Patch.Undo.Meaning.{Reverses, Undoes}
use cross_format_documment.Patch.Undo.Fields.{
  set_text-Undoes, update_node-Undoes, retag-Undoes, redact-Undoes, sanitize_metadata-Undoes,
  set_image-Undoes, set_page_attrs-Undoes, insert_link-Undoes, set_list_attrs-Undoes,
}
use cross_format_documment.Patch.Undo.Move.{Movable, move_node-Undoes}
use cross_format_documment.Patch.Undo.Remove.{Removable, remove_node-Undoes}

-- The target is there, has its key as id where the inverse goes by the id, has the type that the
-- operation wants, and the attributes that the operation sets; a mark is new; a move and a removal
-- are as `Movable` and `Removable` say.
pub data Exact {D : Type 0} (env : Env D) (doc : CanonicalDocument) : Patch D → Type 0 where
  text_set :
      (t : String) (v : Value) (n : Node) (v0 : Value)
      → doc.nodes t ≡ some n
      → n.fields "text" ≡ some v0
      → Exact env doc (Patch.set_text (some t) v)
  node_updated :
      (t : String) (payload : List (String × Value)) (n : Node)
      → doc.nodes t ≡ some n
      → Present n.fields (allowed_items updatable_node_fields payload)
      → Exact env doc (Patch.update_node (some t) payload)
  retagged :
      (t : String) (tags : List String) (n : Node)
      → doc.nodes t ≡ some n
      → Exact env doc (Patch.retag (some t) tags)
  redacted :
      (t : String)
      → contains t doc.redaction.redacted_node_ids ≡ false
      → Exact env doc (Patch.redact (some t))
  sanitized : (keys : List String) → Exact env doc (Patch.sanitize_metadata keys)
  image_set :
      (t : String) (p : AttrsPayload) (n : Node)
      → doc.nodes t ≡ some n
      → n.id ≡ t
      → n.type ≡ NodeType.image
      → Present n.fields (allowed_items image_keys p.fields)
      → Exact env doc (Patch.set_image_attrs (some t) p)
  image_replaced :
      (t : String) (p : AttrsPayload) (n : Node)
      → doc.nodes t ≡ some n
      → n.id ≡ t
      → n.type ≡ NodeType.image
      → Present n.fields (allowed_items image_keys p.fields)
      → Exact env doc (Patch.replace_image (some t) p)
  page_set :
      (t : String) (p : AttrsPayload) (n : Node)
      → doc.nodes t ≡ some n
      → n.id ≡ t
      → n.type ≡ NodeType.page
      → Present n.fields (allowed_items page_keys p.fields)
      → Exact env doc (Patch.set_page_attrs (some t) p)
  link_set :
      (t : String) (href link_href : Option Value) (n : Node) (v0 : Value)
      → doc.nodes t ≡ some n
      → n.id ≡ t
      → n.type ≡ NodeType.run
      → n.fields "link_href" ≡ some v0
      → Exact env doc (Patch.insert_link (some t) href link_href)
  list_set :
      (t : String) (ordered : Option Bool) (n : Node) (b0 : Bool)
      → doc.nodes t ≡ some n
      → n.id ≡ t
      → n.type ≡ NodeType.list
      → n.fields "ordered" ≡ some (flag b0)
      → Exact env doc (Patch.set_list_attrs (some t) ordered)
  moved :
      (nid p q : String) (node from to : Node) (index : Option ℤ)
      → Movable doc nid p q node from to
      → Exact env doc (Patch.move_node (some nid) (some q) index)
  removed :
      (nid p : String) (node parent : Node) (below : List String) (nodes : List Node)
      → Removable env doc nid p node parent below nodes
      → Exact env doc (Patch.remove_node (some nid))

module _ {D : Type 0} (env : Env D) where
  -- In such a state the operation succeeds, and the inverse that it returns undoes it.
  pub Exact-Undoes :
      (k : ℕ) (doc : CanonicalDocument) {op : Patch D} → Exact env doc op → Undoes env k doc op
  Exact-Undoes k doc (text_set t v n v0 h text) = set_text-Undoes env k doc t v n v0 h text
  Exact-Undoes k doc (node_updated t payload n h p) = update_node-Undoes env k doc t payload n h p
  Exact-Undoes k doc (retagged t tags n h) = retag-Undoes env k doc t tags n h
  Exact-Undoes k doc (redacted t new) = redact-Undoes env k doc t new
  Exact-Undoes k doc (sanitized keys) = sanitize_metadata-Undoes env k doc keys
  Exact-Undoes k doc (image_set t p n h own image x) =
      (set_image-Undoes env k doc t p n h own image x).0
  Exact-Undoes k doc (image_replaced t p n h own image x) =
      (set_image-Undoes env k doc t p n h own image x).1
  Exact-Undoes k doc (page_set t p n h own page x) =
      set_page_attrs-Undoes env k doc t p n h own page x
  Exact-Undoes k doc (link_set t a b n v0 h own run x) =
      insert_link-Undoes env k doc t a b n v0 h own run x
  Exact-Undoes k doc (list_set t o n b0 h own list x) =
      set_list_attrs-Undoes env k doc t o n b0 h own list x
  Exact-Undoes k doc (moved nid p q node from to index m) =
      move_node-Undoes env doc nid p q node from to m k index
  Exact-Undoes k doc (removed nid p node parent below nodes r) =
      remove_node-Undoes env doc nid p node parent below nodes r k

  -- A patch whose operations are exact, each in the state in which its turn comes.
  pub data ExactRun : ℕ → CanonicalDocument → List (Patch D) → Type 0 where
    done : {k : ℕ} {doc : CanonicalDocument} → ExactRun k doc []
    next :
        {k : ℕ} {doc : CanonicalDocument} {op : Patch D} {ops : List (Patch D)} (step : Step D)
        → Exact env doc op
        → apply_one env k doc op ≡ ok step
        → ExactRun step.drawn step.doc ops
        → ExactRun k doc (op ∷ ops)

  -- The step that an exact operation makes is reversed.
  pub Exact-Reverses :
      (k : ℕ) {doc : CanonicalDocument} {op : Patch D} (step : Step D)
      → Exact env doc op
      → apply_one env k doc op ≡ ok step
      → Reverses env doc step
  Exact-Reverses k {doc} step exact e =
      let (found, made, back) = Exact-Undoes k doc exact in
      let same : found ≡ step = cc in subst (λ (s : Step D). Reverses env doc s) same back
