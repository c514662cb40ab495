-- ===== src/Patch/Frame/Subtrees.antt =====
-- The helpers on subtrees, rows and columns leave the fields that stay.
use cross_format_documment.Base.{
  ℕ, zero, suc, String, Option, some, List, [], ◌∷◌, ◌≡◌, refl, arith,
}
use mathlib.Core.List.{tail}
use cross_format_documment.Base.Int.{ℤ, pos}
use cross_format_documment.Base.Result.{ok, ◌>>=◌, >>=-eq-ok}
use cross_format_documment.Model.{Node, CanonicalDocument}
use cross_format_documment.Patch.Graph.{insert_child}
use cross_format_documment.Patch.Op.{Env}
use cross_format_documment.Patch.Subtree.{Place, restore_subtree, remove_subtree}
use cross_format_documment.Patch.Table
use cross_format_documment.Patch.Frame.Fixed.{
  fixed, fixed-insert_child, fixed-pop_all, fixed-detach, fixed-restore_nodes,
}

module _ {D : Type 0} (env : Env D) where
  pub fixed-restore_subtree :
      (doc : CanonicalDocument) (xs : List D) (o : Option String) (i : Option ℤ)
      (r : CanonicalDocument × String)
      → restore_subtree env doc xs o i ≡ ok r
      → fixed r.0 ≡ fixed doc
  unfolding restore_subtree
  fixed-restore_subtree doc xs o i r h = grind (arith, fixed-restore_nodes)

  pub fixed-remove_subtree :
      (doc : CanonicalDocument) (nid : String) (r : CanonicalDocument × List D × Place)
      → remove_subtree env doc nid ≡ ok r
      → fixed r.0 ≡ fixed doc
  unfolding remove_subtree
  fixed-remove_subtree doc nid r h = grind (arith, fixed-pop_all, fixed-detach)

  pub fixed-add_cells :
      (k : ℕ) (doc : CanonicalDocument) (id : String) (row col cols : ℕ) (vs : List String)
      → fixed (Table.add_cells env k doc id row col cols vs) ≡ fixed doc
  unfolding Table.add_cells
  fixed-add_cells k doc id row col zero vs = refl
  fixed-add_cells k doc id row col (suc cols) vs =
      fixed-add_cells (suc (suc k)) _ id row (suc col) cols vs

  pub fixed-add_row :
      (k : ℕ) (doc : CanonicalDocument) (t : Node) (i : ℕ) (cols : Option ℤ) (vs : List String)
      (r : CanonicalDocument × String × ℕ)
      → Table.add_row env k doc t i cols vs ≡ ok r
      → fixed r.0 ≡ fixed doc
  unfolding Table.add_row
  fixed-add_row k doc t i cols vs r h = grind (arith, fixed-add_cells)

module _ {D : Type 0} (env : Env D) (drawn : ℕ) (whole : CanonicalDocument) where
  pub fixed-insert_cells :
      (k : ℕ) (doc : CanonicalDocument) (i row : ℕ) (rows : List (String × Node))
      (cells : List (List D)) (vs : List String) (r : CanonicalDocument × List String × ℕ)
      → Table.insert_cells env drawn whole k doc i row rows cells vs ≡ ok r
      → fixed r.0 ≡ fixed doc
  unfolding Table.insert_cells
  fixed-insert_cells k doc i row [] cells vs r h = grind arith
  fixed-insert_cells k doc i row ((_, n) ∷ rows) (x ∷ cells) vs r h =
      let (restored, e, h1) =
        >>=-eq-ok (restore_subtree env doc x (some n.id) (some (pos i)))
          (λ y. Table.insert_cells env drawn whole k y.0 i (suc row) rows cells vs >>= λ z.
            ok (z.0, y.1 ∷ z.1, z.2))
          h in
      let (rest, e', same) =
        >>=-eq-ok (Table.insert_cells env drawn whole k restored.0 i (suc row) rows cells vs)
          (λ z. ok (z.0, restored.1 ∷ z.1, z.2)) h1 in
      ground (
        arith,
        same,
        fixed-insert_cells k restored.0 i (suc row) rows cells vs rest e',
        fixed-restore_subtree env doc x (some n.id) (some (pos i)) restored e,
      )
  fixed-insert_cells k doc i row ((_, n) ∷ rows) [] vs r h =
      let placed = Table.new_cell env k doc n i row vs in
      let cid = env.new_node_id "cell" k in
      let (linked, e, h1) =
        >>=-eq-ok (insert_child placed n.id cid (some (pos i)))
          (λ d. Table.insert_cells env drawn whole (suc (suc k)) d i (suc row) rows [] vs >>= λ z.
            ok (z.0, cid ∷ z.1, z.2))
          h in
      let (rest, e', same) =
        >>=-eq-ok (Table.insert_cells env drawn whole (suc (suc k)) linked i (suc row) rows [] vs)
          (λ z. ok (z.0, cid ∷ z.1, z.2)) h1 in
      ground (
        arith,
        same,
        fixed-insert_cells (suc (suc k)) linked i (suc row) rows [] vs rest e',
        fixed-insert_child placed n.id cid (some (pos i)) linked e,
      )

  pub fixed-delete_cells :
      (doc : CanonicalDocument) (i : Option ℤ) (rows : List (String × Node)) (ids : List String)
      (r : CanonicalDocument × List (List D))
      → Table.delete_cells env drawn whole doc i rows ids ≡ ok r
      → fixed r.0 ≡ fixed doc
  unfolding Table.delete_cells
  fixed-delete_cells doc i [] ids r h = grind arith
  fixed-delete_cells doc i (row ∷ rows) ids r h =
      let later : (doc : CanonicalDocument) (r : CanonicalDocument × List (List D))
          → Table.delete_cells env drawn whole doc i rows (tail ids) ≡ ok r
          → fixed r.0 ≡ fixed doc =
        λ doc' r' h'. fixed-delete_cells doc' i rows (tail ids) r' h' in
      grind (arith, later, fixed-remove_subtree)
