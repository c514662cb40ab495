-- ===== src/Patch/Execute.antt =====
-- `_apply_one`, `apply` and `revert` of `SemanticOrchestratorImpl`. Both work on a deep copy, so an
-- operation that raises leaves the caller's document as it was: the model returns no document then.
use cross_format_documment.Base.{ℕ, List, [], ◌∷◌}
use cross_format_documment.Base.Result.{Result, ok, ◌>>=◌}
use cross_format_documment.Model.{CanonicalDocument}
use cross_format_documment.Patch.Op.{Env, Patch}
use cross_format_documment.Patch.Fields
use cross_format_documment.Patch.Fields.{Step}
use cross_format_documment.Patch.Tree
use cross_format_documment.Patch.Table
use cross_format_documment.Patch.Cell

-- What `apply` leaves: the new document, the inverse operations, last first, and the draws.
pub record Applied (D : Type 0) : Type 0 where
  pub doc : CanonicalDocument
  pub inverse : List (Patch D)
  pub drawn : ℕ

module _ {D : Type 0} (env : Env D) where
  unfoldable pub apply_one : ℕ → CanonicalDocument → Patch D → Result (Step D)
  apply_one k doc (Patch.set_text t v) = Fields.set_text k doc t v
  apply_one k doc (Patch.update_node t p) = Fields.update_node k doc t p
  apply_one k doc (Patch.retag t tags) = Fields.retag k doc t tags
  apply_one k doc (Patch.redact t) = Fields.redact k doc t
  apply_one k doc (Patch.unredact t) = Fields.unredact k doc t
  apply_one k doc (Patch.sanitize_metadata keys) = Fields.sanitize_metadata k doc
  apply_one k doc (Patch.restore_metadata c w) = Fields.restore_metadata k doc c w
  apply_one k doc (Patch.remove_node t) = Tree.remove_node env k doc t
  apply_one k doc (Patch.add_node t p) = Tree.add_node env k doc p
  apply_one k doc (Patch.duplicate_node t p i) = Tree.duplicate_node env k doc t p i
  apply_one k doc (Patch.duplicate_page t p i) = Tree.duplicate_page env k doc t p i
  apply_one k doc (Patch.insert_table_row t i ns c vs) =
      Table.insert_table_row env k doc t i ns c vs
  apply_one k doc (Patch.delete_table_row t r i) = Table.delete_table_row env k doc t r i
  apply_one k doc (Patch.insert_table_col t i cs vs) = Table.insert_table_col env k doc t i cs vs
  apply_one k doc (Patch.delete_table_col t i ids) = Table.delete_table_col env k doc t i ids
  apply_one k doc (Patch.set_table_cell t p) = Cell.set_table_cell env k doc t p
  apply_one k doc (Patch.insert_image t p) = Tree.insert_image env k doc t p
  apply_one k doc (Patch.replace_image t p) = Fields.set_image k doc Patch.replace_image t p
  apply_one k doc (Patch.set_image_attrs t p) = Fields.set_image k doc Patch.set_image_attrs t p
  apply_one k doc (Patch.insert_link t h l) = Fields.insert_link k doc t h l
  apply_one k doc (Patch.set_list_attrs t o) = Fields.set_list_attrs k doc t o
  apply_one k doc (Patch.set_page_attrs t p) = Fields.set_page_attrs k doc t p
  apply_one k doc (Patch.move_node t p i) = Tree.move_node env k doc t p i

  -- the loop of `apply`: `inverse.insert(0, ...)` after each operation
  unfoldable pub apply_all :
      ℕ → CanonicalDocument → List (Patch D) → List (Patch D) → Result (Applied D)
  apply_all k doc inverse [] = ok (record { doc = doc; inverse = inverse; drawn = k })
  apply_all k doc inverse (op ∷ ops) = do
    step ← apply_one k doc op
    apply_all step.drawn step.doc (step.inverse ∷ inverse) ops

  -- `apply`
  unfoldable pub apply : ℕ → CanonicalDocument → List (Patch D) → Result (Applied D)
  unfolding apply_all
  apply k doc patches = apply_all k doc [] patches

  -- `revert`, on the inverse operations of a patch
  unfoldable pub revert : ℕ → CanonicalDocument → List (Patch D) → Result CanonicalDocument
  revert k doc [] = ok doc
  revert k doc (op ∷ ops) = do step ← apply_one k doc op; revert step.drawn step.doc ops
