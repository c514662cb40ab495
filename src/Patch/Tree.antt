-- ===== src/Patch/Tree.antt =====
-- The branches of `_apply_one` that add, remove, move and copy subtrees, outside tables.
use cross_format_documment.Base.{
  ℕ, suc, ◌+◌, String, ◌==◌, Option, none, some, List, [], ◌∷◌, map, if◌then◌else◌,
}
use mathlib.Core.List.{head?}
use cross_format_documment.Base.Int.{ℤ, pos, insert_position}
use cross_format_documment.Base.Lists.{length, contains, index_of, insert_at}
use cross_format_documment.Base.Maps.{Map, empty, put}
use cross_format_documment.Base.Result.{
  Result, ok, err, key_error, value_error, validation_error, or_raise, ◌>>=◌,
}
use cross_format_documment.Model.{Value, null, str, Node, NodeType, type_name, CanonicalDocument}
use cross_format_documment.Patch.Op.{Patch, Env, AddPayload, ImagePayload}
use cross_format_documment.Patch.Graph.{
  node_at, write, set_children, set_parent, given, known, insert_child,
}
use cross_format_documment.Patch.Subtree.{
  link_root, subtree_ids, nodes_at, remove_subtree, restore_subtree, detach, register_all,
}
use cross_format_documment.Patch.Fields.{Step, require_type}
use cross_format_documment.Patch.Renumber.{renumber_if_table}

-- the position that `move_node` inserts at: past the end is the end
abbrev pub move_position : Option ℤ → ℕ → ℕ
move_position none n = n
move_position (some i) n = insert_position i n

-- the node that `move_node` has put under its new parent
abbrev pub attach : CanonicalDocument → String → String → Option ℤ → Result CanonicalDocument
attach doc p nid index = do
  parent ← or_raise (doc.nodes p) key_error
  let linked = write doc p (
      set_children parent
        (insert_at (move_position index (length parent.children)) nid parent.children))
  node ← or_raise (linked.nodes nid) key_error
  ok (write linked nid (set_parent node (some p)))

-- the same under `if new_parent and new_parent in doc.nodes`
unfoldable pub attach_to :
    CanonicalDocument → Option String → String → Option ℤ → Result CanonicalDocument
attach_to doc none nid index = ok doc
attach_to doc (some p) nid index = attach doc p nid index

-- `mapping[old]`, the clone's id
abbrev pub renamed : List (String × String) → String → Option String
renamed [] old = none
renamed ((k, v) ∷ m) old = let rest = renamed m old in if k == old then some v else rest

-- `[mapping[cid] for cid in children if cid in mapping]`
abbrev pub renamed_children : List (String × String) → List String → List String
renamed_children m [] = []
renamed_children m (c ∷ cs) =
    let rest = renamed_children m cs in elim (renamed m c) [ none ↦ rest | some c' ↦ c' ∷ rest ]

-- `mapping.get(clone.parent_id or "", clone.parent_id)`
abbrev pub renamed_parent : List (String × String) → Option String → Option String
renamed_parent m none = elim (renamed m "") [ none ↦ none | some p' ↦ some p' ]
renamed_parent m (some p) = elim (renamed m p) [ none ↦ some p | some p' ↦ some p' ]

-- `a or b` on ids
abbrev pub or_else : Option String → Option String → Option String
or_else a b = elim (given a) [ none ↦ b | some p ↦ some p ]

-- `a or b` where `b` is a text
abbrev or_text : Option String → String → String
or_text a b = elim (given a) [ none ↦ b | some p ↦ p ]

-- The ids of the nodes with their registry keys, in the order of the walk.
abbrev keyed : List String → List Node → List (String × Node)
keyed [] ns = []
keyed (k ∷ ks) [] = []
keyed (k ∷ ks) (n ∷ ns) = (k, n) ∷ keyed ks ns

-- `_clone_subtree`, one clone: a deep copy with the fresh id and the renamed edges
abbrev clone_of : List (String × String) → String × Node → Node
clone_of m (old, n) = record n {
  id = elim (renamed m old) [ none ↦ n.id | some fresh ↦ fresh ];
  parent_id = renamed_parent m n.parent_id;
  children = renamed_children m n.children;
}

-- the fields of `ImageNode` below `BaseNode`
abbrev image_fields : String → String → Value → Map Value
image_fields blob_ref mime alt_text =
    put
      (put (put (put (put empty "blob_ref" (str blob_ref)) "mime" (str mime)) "alt_text" alt_text)
        "ocr_confidence" null)
      "reading_order" null

-- The index at which a copy goes: the one asked for, or the one behind the source.
unfoldable pub copy_index : CanonicalDocument → Option String → String → Option ℤ → Option ℤ
copy_index doc parent_id source_id (some i) = some i
copy_index doc parent_id source_id none = elim (known doc parent_id) [
  | none ↦ none
  | some p ↦ elim (doc.nodes p) [
    | none ↦ none
    | some parent ↦
        if contains source_id parent.children
        then some (pos (index_of source_id parent.children + 1))
        else none
  ]
]

module _ {D : Type 0} (env : Env D) where
  -- The mapping of `_clone_subtree`: a fresh id for each node, with the draws counted.
  unfoldable pub fresh_ids : ℕ → List (String × Node) → List (String × String) × ℕ
  fresh_ids drawn [] = ([], drawn)
  fresh_ids drawn ((old, n) ∷ ns) =
      let (m, drawn') = fresh_ids (suc drawn) ns in
      ((old, env.new_node_id (type_name n.type) drawn) ∷ m, drawn')

  -- `_clone_subtree`: the id of the copied root, the clones, and the draws
  unfoldable pub clone_subtree : ℕ → CanonicalDocument → String → Result (String × List Node × ℕ)
  unfolding fresh_ids subtree_ids nodes_at
  clone_subtree drawn doc root_id = do
    ids ← subtree_ids env doc root_id
    nodes ← nodes_at doc ids
    let drawing = fresh_ids drawn (keyed ids nodes)
    new_root ← or_raise (renamed drawing.0 root_id) key_error
    ok (new_root, map (clone_of drawing.0) (keyed ids nodes), drawing.1)

module _ {D : Type 0} (env : Env D) (drawn : ℕ) (doc : CanonicalDocument) where
  unfoldable pub remove_node : Option String → Result (Step D)
  unfolding remove_subtree renumber_if_table
  remove_node none = err key_error
  remove_node (some nid) = do
    removed ← remove_subtree env doc nid
    let place = removed.2
    ok (record {
      doc = renumber_if_table removed.0 place.parent_id;
      inverse = Patch.add_node (some nid) (record {
        node = head? removed.1;
        nodes = removed.1;
        parent_id = some place.parent_id;
        index = place.index;
      });
      drawn = drawn;
    })

  -- the second half of `add_node`, for a payload of one node
  unfoldable pub add_one : Node → AddPayload D → Result (Step D)
  unfolding link_root renumber_if_table
  add_one node payload = do
    let placed = write doc node.id node
    let parent_id : Option String = elim payload.parent_id [ none ↦ node.parent_id | some p ↦ p ]
    linked ← link_root placed (known placed parent_id) node.id payload.index
    ok (record {
      doc = renumber_if_table linked (known placed parent_id);
      inverse = Patch.remove_node (some node.id);
      drawn = drawn;
    })

  -- `payload.get("parent_id")`
  abbrev pub parent_of : AddPayload D → Option String
  parent_of payload = elim payload.parent_id [ none ↦ none | some p ↦ p ]

  -- `add_node`, on the payload's `nodes`
  unfoldable pub add_dumps : List D → AddPayload D → Result (Step D)
  unfolding restore_subtree renumber_if_table add_one
  add_dumps [] payload = do
    dumped ← or_raise payload.node key_error
    node ← or_raise (env.validate dumped) validation_error
    add_one node payload
  add_dumps (x ∷ xs) payload = do
    restored ← restore_subtree env doc (x ∷ xs) (parent_of payload) payload.index
    ok (record {
      doc = renumber_if_table restored.0 (parent_of payload);
      inverse = Patch.remove_node (some restored.1);
      drawn = drawn;
    })

  unfoldable pub add_node : AddPayload D → Result (Step D)
  unfolding add_dumps
  add_node payload = add_dumps payload.nodes payload

  -- `move_node`. A move of a node that its new parent does not know leaves it detached.
  unfoldable pub move_node : Option String → Option String → Option ℤ → Result (Step D)
  unfolding detach attach_to renumber_if_table
  move_node none new_parent index = err key_error
  move_node (some nid) parent_id index = do
    node ← node_at doc (some nid)
    let left = detach doc nid node
    let new_parent = known left.0 (or_else parent_id node.parent_id)
    moved ← attach_to left.0 new_parent nid index
    ok (record {
      doc = renumber_if_table (renumber_if_table moved new_parent) node.parent_id;
      inverse = Patch.move_node (some nid) node.parent_id left.1;
      drawn = drawn;
    })

  -- `duplicate_node` and `duplicate_page` behind the check of the type
  unfoldable pub duplicate : Node → Option String → Option ℤ → Result (Step D)
  unfolding clone_subtree register_all copy_index insert_child
  duplicate source parent_id index = do
    cloned ← clone_subtree env drawn doc source.id
    let placed = register_all doc cloned.1
    let target = or_else parent_id source.parent_id
    let position = copy_index placed target source.id index
    linked ← elim (known placed target) [
      | none ↦ ok placed
      | some p ↦ insert_child placed p cloned.0 position
    ]
    ok (record { doc = linked; inverse = Patch.remove_node (some cloned.0); drawn = cloned.2 })

  unfoldable pub duplicate_node : Option String → Option String → Option ℤ → Result (Step D)
  unfolding duplicate
  duplicate_node target parent_id index = do
    source ← node_at doc target
    duplicate source parent_id index

  unfoldable pub duplicate_page : Option String → Option String → Option ℤ → Result (Step D)
  unfolding duplicate
  duplicate_page target parent_id index = do
    source ← node_at doc target
    page ← require_type NodeType.page source
    duplicate page parent_id index

  unfoldable pub insert_image : Option String → ImagePayload → Result (Step D)
  unfolding insert_child
  insert_image target payload = do
    let parent_id = or_text (or_else target payload.parent_id) doc.root_id
    parent ← or_raise (doc.nodes parent_id) value_error
    blob_ref ← or_raise payload.blob_ref key_error
    let image_id = or_text payload.id (env.new_node_id "img" drawn)
    let placed = write doc image_id (record {
      id = image_id;
      type = NodeType.image;
      parent_id = some parent_id;
      children = [];
      bbox = payload.bbox;
      attrs = payload.attrs;
      tags = [];
      fields =
          image_fields blob_ref (elim payload.mime [ none ↦ "image/png" | some m ↦ m ])
            (elim payload.alt_text [ none ↦ null | some a ↦ str a ]);
    })
    linked ← insert_child placed parent_id image_id payload.index
    ok (record {
      doc = linked;
      inverse = Patch.remove_node (some image_id);
      drawn = elim (given payload.id) [ none ↦ suc drawn | some _ ↦ drawn ];
    })
