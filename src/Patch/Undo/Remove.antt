-- ===== src/Patch/Undo/Remove.antt =====
-- The removal of a subtree is undone by the insertion of its dump.
use cross_format_documment.Base.{
  ℕ, String, ◌==◌, eq_iff, eq_refl, neq_sym, some, true, false, List, ◌∷◌, ◌≡◌, refl, sym, ◌∙◌, ap,
  fun_ext, arith, min, map,
}
use cross_format_documment.Base.Int.{pos}
use cross_format_documment.Base.Lists.{
  length, contains, remove, index_of, insert_at, insert_at-remove, index_of-lt-length,
  length-remove,
}
use cross_format_documment.Base.Result.{ok}
use cross_format_documment.Model.{Node, NodeType, CanonicalDocument, is_a}
use cross_format_documment.Patch.Op.{Env, Patch}
use cross_format_documment.Patch.Graph.{
  without, write, with_nodes, set_children, set_parent, insert_child,
}
use cross_format_documment.Patch.Subtree.{
  detach, subtree_ids, dump_subtree, pop_all, remove_subtree, restore_nodes, restore_subtree,
}
use cross_format_documment.Patch.Tree
use cross_format_documment.Patch.Execute.{apply_one}
use cross_format_documment.Patch.Undo.Meaning.{Undoes, Undoes-by}
use cross_format_documment.Patch.Undo.Move.{renumber_plain, min_of_le}
use cross_format_documment.Patch.Undo.Pops.{
  Keyed, Unmarked, Reads, register_all-pop_all, nodes_at-Keyed, validate_all-Reads, Keyed-put,
  pop_all_other,
}

-- The nodes that the registry holds under the ids, each under its own.
-- marked node.
pub record Removable {D : Type 0} (env : Env D) (doc : CanonicalDocument) (nid p : String)
    (node parent : Node) (below : List String) (nodes : List Node) : Type 0 where
  pub at_node : doc.nodes nid ≡ some node
  pub own_id : node.id ≡ nid
  pub at_parent : doc.nodes p ≡ some parent
  pub child : node.parent_id ≡ some p
  pub p_id : (p == "") ≡ false
  pub listed : contains nid parent.children ≡ true
  pub once : contains nid (remove nid parent.children) ≡ false
  pub plain : is_a NodeType.table parent ≡ false
  pub walked :
      subtree_ids env (write doc p (set_children parent (remove nid parent.children))) nid
      ≡ ok (nid ∷ below)
  pub apart : contains p (nid ∷ below) ≡ false
  pub keyed : Keyed doc.nodes (nid ∷ below) (node ∷ nodes)
  pub unmarked : Unmarked doc.redaction.redacted_node_ids (nid ∷ below)
  pub reads : Reads env (node ∷ nodes)

module _ {D : Type 0} (env : Env D) (doc : CanonicalDocument) (nid p : String) (node parent : Node)
    (below : List String) (nodes : List Node)
    (r : Removable env doc nid p node parent below nodes) where
  abbrev place : ℕ
  place = index_of nid parent.children

  abbrev orphaned : Node
  orphaned = set_children parent (remove nid parent.children)

  abbrev detached : CanonicalDocument
  detached = write doc p orphaned

  detach-Removable : detach doc nid node ≡ (detached, some (pos place))
  unfolding detach
  detach-Removable = ground (arith, r.at_parent, r.child, r.p_id, r.listed)

  Keyed-detached : Keyed detached.nodes (nid ∷ below) (node ∷ nodes)
  Keyed-detached = Keyed-put doc.nodes p orphaned (nid ∷ below) (node ∷ nodes) r.apart r.keyed

  dump-Removable : dump_subtree env detached nid ≡ ok (map env.dump (node ∷ nodes))
  unfolding dump_subtree
  dump-Removable =
      rw (r.walked) (rw (nodes_at-Keyed detached (nid ∷ below) (node ∷ nodes) Keyed-detached))

  abbrev popped : CanonicalDocument
  popped = pop_all detached (nid ∷ below)

  remove_subtree-Removable :
      remove_subtree env doc nid
      ≡ ok (
        popped,
        map env.dump (node ∷ nodes),
        record { parent_id = some p; index = some (pos place) },
      )
  unfolding remove_subtree
  remove_subtree-Removable =
      rw (r.at_node) (rw detach-Removable (rw dump-Removable (rw (r.walked) (rw (r.child)))))

  parent_left : popped.nodes p ≡ some orphaned
  parent_left = pop_all_other detached (nid ∷ below) p r.apart ∙ rw eq_refl

  abbrev put_back : Patch D
  put_back = Patch.add_node (some nid) (record {
    node = some (env.dump node);
    nodes = map env.dump (node ∷ nodes);
    parent_id = some (some p);
    index = some (pos place);
  })

  remove_node-Removable :
      (k : ℕ)
      → apply_one env k doc (Patch.remove_node (some nid))
        ≡ ok (record { doc = popped; inverse = put_back; drawn = k })
  unfolding apply_one Tree.remove_node
  remove_node-Removable k =
      rw remove_subtree-Removable (rw (renumber_plain popped p orphaned parent_left r.plain))

  nid_ne_p : (nid == p) ≡ false
  nid_ne_p = ground (arith, r.apart)

  without-once : without nid (remove nid parent.children) ≡ remove nid parent.children
  without-once = rw (r.once)

  place-min : min place (length (remove nid parent.children)) ≡ place
  place-min = min_of_le place (length (remove nid parent.children)) (
      omega (
        arith,
        index_of-lt-length nid parent.children r.listed,
        length-remove nid parent.children r.listed,
      ))

  relinked : set_children orphaned (insert_at place nid (remove nid parent.children)) ≡ parent
  relinked = ap (set_children parent) (insert_at-remove nid parent.children r.listed)

  rejoined : write (write detached p parent) nid (set_parent node (some p)) ≡ doc
  rejoined = ap (with_nodes doc) (
      fun_ext λ j.
        rw (ap (set_parent node) (sym r.child))
          (ground (arith, r.at_node, r.at_parent, eq_iff p j, eq_iff nid j)))

  -- Linking the root again restores the parent and the root.
  insert_child-detached : insert_child detached p nid (some (pos place)) ≡ ok doc
  unfolding insert_child
  insert_child-detached = rw eq_refl (
      rw (neq_sym nid p nid_ne_p)
        (rw (r.at_node) (rw without-once (rw place-min (rw relinked (ap ok rejoined))))))

  restore-Removable :
      restore_nodes popped (node ∷ nodes) (some p) (some (pos place)) ≡ ok (doc, nid)
  unfolding restore_nodes
  restore-Removable =
      rw (register_all-pop_all detached (nid ∷ below) (node ∷ nodes) Keyed-detached r.unmarked)
        (rw (r.p_id) (rw (r.own_id) (rw insert_child-detached)))

  add_node-Removable :
      (k : ℕ)
      → apply_one env k popped put_back
        ≡ ok (record { doc = doc; inverse = Patch.remove_node (some nid); drawn = k })
  unfolding apply_one Tree.add_node restore_subtree
  add_node-Removable k =
      rw (validate_all-Reads env (node ∷ nodes) r.reads)
        (rw restore-Removable (rw (renumber_plain doc p parent r.at_parent r.plain)))

  -- The removal of a subtree that can be removed and put back succeeds, and the inverse that it
  -- returns gives the document back, whatever ids are drawn.
  pub remove_node-Undoes : (k : ℕ) → Undoes env k doc (Patch.remove_node (some nid))
  remove_node-Undoes k =
      Undoes-by env k doc (Patch.remove_node (some nid))
        (record { doc = popped; inverse = put_back; drawn = k }) (remove_node-Removable k)
        λ k'. (
          record { doc = doc; inverse = Patch.remove_node (some nid); drawn = k' },
          add_node-Removable k',
          refl,
        )
