-- ===== src/Patch/Frame/Trees.antt =====
-- The operations outside tables leave the fields that stay.
use cross_format_documment.Base.{ℕ, String, Option, some, List, [], ◌∷◌, arith}
use cross_format_documment.Base.Int.{ℤ}
use cross_format_documment.Base.Result.{ok, ◌>>=◌, >>=-eq-ok}
use cross_format_documment.Model.{Node, NodeType, CanonicalDocument}
use cross_format_documment.Patch.Graph.{node_at}
use cross_format_documment.Patch.Fields.{require_type}
use cross_format_documment.Patch.Op.{Env, Patch, AddPayload, ImagePayload}
use cross_format_documment.Patch.Subtree.{restore_subtree}
use cross_format_documment.Patch.Renumber.{renumber_if_table}
use cross_format_documment.Patch.Tree
use cross_format_documment.Patch.Frame.Fixed.{
  Same, fixed-insert_child, fixed-link_root, fixed-register_all, fixed-detach, fixed-attach_to,
  fixed-renumber,
}
use cross_format_documment.Patch.Frame.Subtrees.{fixed-restore_subtree, fixed-remove_subtree}

module _ {D : Type 0} (env : Env D) (k : ℕ) (doc : CanonicalDocument) where
  pub fixed-add_one : (n : Node) (p : AddPayload D) → Same doc (Tree.add_one env k doc n p)
  unfolding Tree.add_one
  fixed-add_one n p s h = grind (arith, fixed-link_root, fixed-renumber)

  pub fixed-add_node : (p : AddPayload D) (ns : List D) → Same doc (Tree.add_dumps env k doc ns p)
  unfolding Tree.add_dumps
  fixed-add_node p [] s h = grind (arith, fixed-add_one)
  fixed-add_node p (x ∷ xs) s h =
      let parent_id = Tree.parent_of env k doc p in
      let (restored, e, same) =
        >>=-eq-ok (restore_subtree env doc (x ∷ xs) parent_id p.index)
          (λ r. ok (record {
            doc = renumber_if_table r.0 parent_id;
            inverse = Patch.remove_node (some r.1);
            drawn = k;
          }))
          h in
      ground (
        arith,
        same,
        fixed-renumber restored.0 parent_id,
        fixed-restore_subtree env doc (x ∷ xs) parent_id p.index restored e,
      )

  pub fixed-remove_node : (t : Option String) → Same doc (Tree.remove_node env k doc t)
  unfolding Tree.remove_node
  fixed-remove_node t s h = grind (arith, fixed-remove_subtree, fixed-renumber)

  pub fixed-move_node :
      (t p : Option String) (i : Option ℤ) → Same doc (Tree.move_node env k doc t p i)
  unfolding Tree.move_node
  fixed-move_node t p i s h = grind (arith, fixed-detach, fixed-attach_to, fixed-renumber)

  pub fixed-duplicate :
      (n : Node) (p : Option String) (i : Option ℤ) → Same doc (Tree.duplicate env k doc n p i)
  unfolding Tree.duplicate
  fixed-duplicate n p i s h = grind (arith, fixed-register_all, fixed-insert_child)

  pub fixed-insert_image :
      (t : Option String) (p : ImagePayload) → Same doc (Tree.insert_image env k doc t p)
  unfolding Tree.insert_image
  fixed-insert_image t p s h = grind (arith, fixed-insert_child)

  pub fixed-duplicated :
      (t p : Option String) (i : Option ℤ) → Same doc (Tree.duplicate_node env k doc t p i)
  unfolding Tree.duplicate_node
  fixed-duplicated t p i s h =
      let (n, _, made) = >>=-eq-ok (node_at doc t) (λ n. Tree.duplicate env k doc n p i) h in
      fixed-duplicate n p i s made

  pub fixed-duplicate_page :
      (t p : Option String) (i : Option ℤ) → Same doc (Tree.duplicate_page env k doc t p i)
  unfolding Tree.duplicate_page
  fixed-duplicate_page t p i s h =
      let (n, _, h1) =
        >>=-eq-ok (node_at doc t)
          (λ n. require_type NodeType.page n >>= λ m. Tree.duplicate env k doc m p i) h in
      let (m, _, made) =
        >>=-eq-ok (require_type NodeType.page n) (λ m. Tree.duplicate env k doc m p i) h1 in
      fixed-duplicate m p i s made
