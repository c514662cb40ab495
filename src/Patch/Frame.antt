-- ===== src/Patch/Frame.antt =====
-- What no operation of the executor changes.
pub mod Fixed
mod Subtrees
mod Trees
mod Tables
use cross_format_documment.Base.{
  ℕ, zero, suc, max, String, ◌==◌, Option, none, some, Bool, List, [], ◌∷◌, ◌≡◌, refl, ◌∙◌, arith,
  if◌then◌else◌,
}
use mathlib.Core.List.{tail}
use cross_format_documment.Base.Int.{ℤ, pos}
use cross_format_documment.Base.Lists.{length}
use cross_format_documment.Base.Maps.{del}
use cross_format_documment.Base.Result.{Result, ok, err, ◌>>=◌, >>=-eq-ok}
use cross_format_documment.Model.{
  Node, NodeType, Value, CanonicalDocument, Permissions, AccessibilityState, SignatureState,
}
use cross_format_documment.Patch.Graph.{node_at, clamp_index, insert_child, write, known, without}
use cross_format_documment.Patch.Fields
use cross_format_documment.Patch.Fields.{Step, require_type}
use cross_format_documment.Patch.Execute.{Applied, apply_one, apply_all, apply}
use cross_format_documment.Patch.Op.{Env, Patch, AddPayload, CellPayload, ImagePayload}
use cross_format_documment.Patch.Subtree.{
  Place, detach, register_all, pop_all, link_root, restore_nodes, restore_subtree, remove_subtree,
}
use cross_format_documment.Patch.Renumber.{
  set_attr_at, number_cells, number_rows, renumber_table, renumber_if_table, row_cells, table_rows,
  number,
}
use cross_format_documment.Patch.Tree
use cross_format_documment.Patch.Table
use cross_format_documment.Patch.Cell
use cross_format_documment.Patch.Frame.Fixed.{
  fixed, Same, fixed-set_attr_at, fixed-insert_child, fixed-link_root, fixed-register_all,
  fixed-pop_all, fixed-detach, fixed-attach_to, fixed-number_cells, fixed-number_rows,
  fixed-renumber_table, fixed-renumber, fixed-restore_nodes,
}
use cross_format_documment.Patch.Frame.Trees.{
  fixed-add_one, fixed-add_node, fixed-remove_node, fixed-move_node, fixed-duplicate,
  fixed-insert_image, fixed-duplicated, fixed-duplicate_page,
}
use cross_format_documment.Patch.Frame.Tables.{
  fixed-made_row, fixed-insert_table_row, fixed-delete_table_row, fixed-insert_table_col,
  fixed-delete_table_col, fixed-set_table_cell,
}

module _ {D : Type 0} (env : Env D) (k : ℕ) (doc : CanonicalDocument) where
  fixed-one : (op : Patch D) → Same doc (apply_one env k doc op)
  unfolding apply_one Tree.add_node Fields.set_text Fields.update_node Fields.retag Fields.redact
      Fields.unredact Fields.sanitize_metadata Fields.restore_metadata Fields.set_image
      Fields.insert_link Fields.set_list_attrs Fields.set_page_attrs
  fixed-one (Patch.set_text t v) s h = ground arith
  fixed-one (Patch.update_node t p) s h = ground arith
  fixed-one (Patch.retag t tags) s h = ground arith
  fixed-one (Patch.redact t) s h = ground arith
  fixed-one (Patch.unredact t) s h = ground arith
  fixed-one (Patch.sanitize_metadata keys) s h = ground arith
  fixed-one (Patch.restore_metadata c w) s h = ground arith
  fixed-one (Patch.replace_image t p) s h = ground arith
  fixed-one (Patch.set_image_attrs t p) s h = ground arith
  fixed-one (Patch.set_page_attrs t p) s h = ground arith
  fixed-one (Patch.insert_link t a b) s h = ground arith
  fixed-one (Patch.set_list_attrs t o) s h = ground arith
  fixed-one (Patch.remove_node t) s h = fixed-remove_node env k doc t s h
  fixed-one (Patch.add_node t p) s h = fixed-add_node env k doc p p.nodes s h
  fixed-one (Patch.move_node t p i) s h = fixed-move_node env k doc t p i s h
  fixed-one (Patch.duplicate_node t p i) s h = fixed-duplicated env k doc t p i s h
  fixed-one (Patch.duplicate_page t p i) s h = fixed-duplicate_page env k doc t p i s h
  fixed-one (Patch.insert_table_row t i ns c vs) s h =
      fixed-insert_table_row env k doc t i ns c vs s h
  fixed-one (Patch.delete_table_row t r i) s h = fixed-delete_table_row env k doc t r i s h
  fixed-one (Patch.insert_table_col t i cs vs) s h = fixed-insert_table_col env k doc t i cs vs s h
  fixed-one (Patch.delete_table_col t i ids) s h = fixed-delete_table_col env k doc t i ids s h
  fixed-one (Patch.set_table_cell t p) s h = fixed-set_table_cell env k doc t p s h
  fixed-one (Patch.insert_image t p) s h = fixed-insert_image env k doc t p s h

module _ {D : Type 0} (env : Env D) where
  pub fixed-apply_all :
      (k : ℕ) (doc : CanonicalDocument) (inverse ops : List (Patch D)) (a : Applied D)
      → apply_all env k doc inverse ops ≡ ok a
      → fixed a.doc ≡ fixed doc
  unfolding apply_all
  fixed-apply_all k doc inverse [] a h = ground arith
  fixed-apply_all k doc inverse (op ∷ ops) a h =
      let (s, e, rest) =
        >>=-eq-ok (apply_one env k doc op)
          (λ s. apply_all env s.drawn s.doc (s.inverse ∷ inverse) ops) h in
      fixed-apply_all s.drawn s.doc (s.inverse ∷ inverse) ops a rest ∙ fixed-one env k doc op s e

  -- Whatever operations a patch is made of, applying it changes neither the document's id, its root
  -- and schema nor its permissions, accessibility state, signature and stored hash.
  pub apply_keeps_frame :
      (k : ℕ) (doc : CanonicalDocument) (ops : List (Patch D)) (a : Applied D)
      → apply env k doc ops ≡ ok a
      → fixed a.doc ≡ fixed doc
  unfolding apply
  apply_keeps_frame k doc ops a h = fixed-apply_all k doc [] ops a h
