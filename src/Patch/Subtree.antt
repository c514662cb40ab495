-- ===== src/Patch/Subtree.antt =====
-- The helpers of the executor that walk, dump, remove, restore and clone a subtree.
use cross_format_documment.Base.{
  ℕ, zero, suc, String, Option, none, some, List, [], ◌∷◌, ◌++◌, map, if◌then◌else◌,
}
use cross_format_documment.Base.Int.{ℤ, pos}
use cross_format_documment.Base.Lists.{contains, remove, index_of}
use cross_format_documment.Base.Maps.{del}
use cross_format_documment.Base.Result.{
  Result, ok, err, key_error, value_error, validation_error, diverges, or_raise, ◌>>=◌,
}
use cross_format_documment.Model.{Node, CanonicalDocument}
use cross_format_documment.Patch.Op.{Env}
use cross_format_documment.Patch.Graph.{given, known, write, set_children, insert_child}

-- The loop of `_subtree_ids`: a stack of ids, of which unknown ones are skipped. The stack's top is
-- the head, so pushing the reversed children puts them in front in their order.
unfoldable pub walk_ids : ℕ → CanonicalDocument → List String → Result (List String)
walk_ids zero doc stack = err diverges
walk_ids (suc fuel) doc [] = ok []
walk_ids (suc fuel) doc (nid ∷ stack) = elim (doc.nodes nid) [
  | none ↦ walk_ids fuel doc stack
  | some node ↦ walk_ids fuel doc (node.children ++ stack) >>= λ out. ok (nid ∷ out)
]

-- `doc.nodes[nid]` for each id
unfoldable pub nodes_at : CanonicalDocument → List String → Result (List Node)
nodes_at doc [] = ok []
nodes_at doc (nid ∷ ids) = do
  node ← or_raise (doc.nodes nid) key_error
  rest ← nodes_at doc ids
  ok (node ∷ rest)

-- `doc.nodes.pop(nid, None)` with the drop of a redaction mark, for each id
unfoldable pub pop_all : CanonicalDocument → List String → CanonicalDocument
pop_all doc [] = doc
pop_all doc (nid ∷ ids) =
    let marks = doc.redaction.redacted_node_ids in
    pop_all
      (record doc {
        nodes = del doc.nodes nid;
        redaction = record (doc.redaction) {
          redacted_node_ids = if contains nid marks then remove nid marks else marks;
        };
      })
      ids

-- `doc.nodes[node.id] = node` for each node
unfoldable pub register_all : CanonicalDocument → List Node → CanonicalDocument
register_all doc [] = doc
register_all doc (n ∷ ns) = register_all (write doc n.id n) ns

-- Where a node stood: its parent, and its index if the parent listed it.
pub record Place : Type 0 where
  pub parent_id : Option String
  pub index : Option ℤ

-- The first half of `_remove_subtree`, which `move_node` has too: the node leaves its parent's
-- children.
unfoldable pub detach : CanonicalDocument → String → Node → CanonicalDocument × Option ℤ
detach doc nid node = elim (known doc node.parent_id) [
  | none ↦ (doc, none)
  | some p ↦ elim (doc.nodes p) [
    | none ↦ (doc, none)
    | some parent ↦
        if contains nid parent.children
        then (
          write doc p (set_children parent (remove nid parent.children)),
          some (pos (index_of nid parent.children)),
        )
        else (doc, none)
  ]
]

-- `if parent_id:` the root goes among that node's children.
unfoldable pub link_root :
    CanonicalDocument → Option String → String → Option ℤ → Result CanonicalDocument
unfolding insert_child
link_root doc none root_id index = ok doc
link_root doc (some p) root_id index = insert_child doc p root_id index

-- the part of `_restore_subtree` after the validation
unfoldable pub restore_nodes :
    CanonicalDocument → List Node → Option String → Option ℤ → Result (CanonicalDocument × String)
unfolding register_all link_root
restore_nodes doc [] parent_id index = err value_error
restore_nodes doc (root ∷ nodes) parent_id index = do
  linked ← link_root (register_all doc (root ∷ nodes)) (given parent_id) root.id index
  ok (linked, root.id)

module _ {D : Type 0} (env : Env D) where
  unfoldable pub subtree_ids : CanonicalDocument → String → Result (List String)
  unfolding walk_ids
  subtree_ids doc root_id = walk_ids env.rounds doc (root_id ∷ [])

  unfoldable pub dump_subtree : CanonicalDocument → String → Result (List D)
  unfolding subtree_ids nodes_at
  dump_subtree doc root_id = do
    ids ← subtree_ids doc root_id
    nodes ← nodes_at doc ids
    ok (map env.dump nodes)

  -- `_remove_subtree`
  unfoldable pub remove_subtree :
      CanonicalDocument → String → Result (CanonicalDocument × List D × Place)
  unfolding detach dump_subtree pop_all
  remove_subtree doc root_id = do
    node ← or_raise (doc.nodes root_id) key_error
    let found = detach doc root_id node
    nodes_data ← dump_subtree found.0 root_id
    ids ← subtree_ids found.0 root_id
    ok (pop_all found.0 ids, nodes_data, record { parent_id = node.parent_id; index = found.1 })

  -- `validate_python` of each dump
  unfoldable pub validate_all : List D → Result (List Node)
  validate_all [] = ok []
  validate_all (x ∷ xs) = do
    node ← or_raise (env.validate x) validation_error
    rest ← validate_all xs
    ok (node ∷ rest)

  -- `_restore_subtree`
  unfoldable pub restore_subtree :
      CanonicalDocument → List D → Option String → Option ℤ → Result (CanonicalDocument × String)
  unfolding validate_all restore_nodes
  restore_subtree doc nodes_data parent_id index = do
    nodes ← validate_all nodes_data
    restore_nodes doc nodes parent_id index
