-- ===== src/Patch/Frame/Tables.antt =====
-- The operations on tables leave the fields that stay.
use cross_format_documment.Base.{ℕ, String, Option, none, some, List, [], ◌∷◌, ◌≡◌, arith}
use cross_format_documment.Base.Int.{ℤ, pos}
use cross_format_documment.Base.Lists.{length}
use cross_format_documment.Base.Result.{Result, ok, ◌>>=◌, >>=-eq-ok}
use cross_format_documment.Model.{Node, NodeType, CanonicalDocument}
use cross_format_documment.Patch.Graph.{node_at, clamp_index}
use cross_format_documment.Patch.Fields.{Step, require_type}
use cross_format_documment.Patch.Op.{Env, Patch, CellPayload}
use cross_format_documment.Patch.Subtree.{restore_subtree}
use cross_format_documment.Patch.Renumber.{renumber_table, table_rows}
use cross_format_documment.Patch.Table
use cross_format_documment.Patch.Cell
use cross_format_documment.Patch.Frame.Fixed.{
  fixed, Same, fixed-set_attr_at, fixed-insert_child, fixed-renumber_table,
}
use cross_format_documment.Patch.Frame.Subtrees.{
  fixed-restore_subtree, fixed-remove_subtree, fixed-add_row, fixed-insert_cells,
  fixed-delete_cells,
}

module _ {D : Type 0} (env : Env D) (k : ℕ) (doc : CanonicalDocument) where
  -- The row that `insert_table_row` makes or puts back.
  pub fixed-made_row :
      (table : Node) (i : ℕ) (ns : List D) (c : Option ℤ) (vs : List String)
      (r : CanonicalDocument × String × ℕ)
      → Table.made_row env k doc table i ns c vs ≡ ok r
      → fixed r.0 ≡ fixed doc
  unfolding Table.made_row
  fixed-made_row table i [] c vs r h = grind (arith, fixed-add_row, fixed-insert_child)
  fixed-made_row table i (x ∷ xs) c vs r h =
      let (restored, e, same) =
        >>=-eq-ok (restore_subtree env doc (x ∷ xs) (some table.id) (some (pos i)))
          (λ y. ok (y.0, y.1, k)) h in
      ground (
        arith,
        same,
        fixed-restore_subtree env doc (x ∷ xs) (some table.id) (some (pos i)) restored e,
      )

  pub fixed-insert_table_row :
      (t : Option String) (i : Option ℤ) (ns : List D) (c : Option ℤ) (vs : List String)
      → Same doc (Table.insert_table_row env k doc t i ns c vs)
  unfolding Table.insert_table_row
  fixed-insert_table_row t i ns c vs s h =
      let (node, _, h1) = >>=-eq-ok (node_at doc t) (λ n. on_table n) h in
      let (table, _, h2) = >>=-eq-ok (require_type NodeType.table node) (λ n. placed n) h1 in
      let place = clamp_index i (length (table_rows doc table)) in
      let (row, made, same) =
        >>=-eq-ok (Table.made_row env k doc table place ns c vs) (λ y. result table y) h2 in
      ground (
        arith,
        same,
        fixed-renumber_table row.0 table.id,
        fixed-made_row table place ns c vs row made,
      )
    where
      result : Node → CanonicalDocument × String × ℕ → Result (Step D)
      result table row = ok (record {
        doc = renumber_table row.0 table.id;
        inverse = Patch.remove_node (some row.1);
        drawn = row.2;
      })

      placed : Node → Result (Step D)
      placed table =
          Table.made_row env k doc table (clamp_index i (length (table_rows doc table))) ns c vs
          >>= λ row. result table row

      on_table : Node → Result (Step D)
      on_table node = require_type NodeType.table node >>= λ table. placed table

  pub fixed-delete_table_row :
      (t r : Option String) (i : Option ℤ) → Same doc (Table.delete_table_row env k doc t r i)
  unfolding Table.delete_table_row
  fixed-delete_table_row t r i s h = grind (arith, fixed-remove_subtree, fixed-renumber_table)

  pub fixed-insert_table_col :
      (t : Option String) (i : Option ℤ) (cs : List (List D)) (vs : List String)
      → Same doc (Table.insert_table_col env k doc t i cs vs)
  unfolding Table.insert_table_col
  fixed-insert_table_col t i cs vs s h =
      let (node, _, h1) = >>=-eq-ok (node_at doc t) (λ n. on_table n) h in
      let (table, _, h2) = >>=-eq-ok (require_type NodeType.table node) (λ n. placed n) h1 in
      let rows = table_rows doc table in
      let place = clamp_index i (Table.widest doc rows) in
      let (cells, made, same) =
        >>=-eq-ok (Table.insert_cells env k doc k doc place 0 rows cs vs)
          (λ y. result table place y) h2 in
      ground (
        arith,
        same,
        fixed-renumber_table cells.0 table.id,
        fixed-insert_cells env k doc k doc place 0 rows cs vs cells made,
      )
    where
      result : Node → ℕ → CanonicalDocument × List String × ℕ → Result (Step D)
      result table place cells = ok (record {
        doc = renumber_table cells.0 table.id;
        inverse = Patch.delete_table_col (some table.id) (some (pos place)) cells.1;
        drawn = cells.2;
      })

      placed : Node → Result (Step D)
      placed table =
          let place = clamp_index i (Table.widest doc (table_rows doc table)) in
          Table.insert_cells env k doc k doc place 0 (table_rows doc table) cs vs >>= λ cells.
          result table place cells

      on_table : Node → Result (Step D)
      on_table node = require_type NodeType.table node >>= λ table. placed table

  pub fixed-delete_table_col :
      (t : Option String) (i : Option ℤ) (ids : List String)
      → Same doc (Table.delete_table_col env k doc t i ids)
  unfolding Table.delete_table_col
  fixed-delete_table_col t i ids s h = grind (arith, fixed-delete_cells, fixed-renumber_table)

  pub fixed-set_table_cell :
      (t : Option String) (p : CellPayload) → Same doc (Cell.set_table_cell env k doc t p)
  unfolding Cell.set_table_cell Cell.write_text
  fixed-set_table_cell none p s h = ground arith
  fixed-set_table_cell (some t) p s h = grind (arith, fixed-set_attr_at)
