-- ===== src/Patch/Table.antt =====
-- The branches of `_apply_one` that insert and delete rows and columns.
use cross_format_documment.Base.{
  ℕ, zero, suc, ◌+◌, ◌-◌, ◌*◌, max, String, Option, none, some, true, false, List, [], ◌∷◌, ◌==◌,
  leb, if◌then◌else◌,
}
use mathlib.Core.List.{head?, tail}
use cross_format_documment.Base.Int.{ℤ, pos, negsuc}
use cross_format_documment.Base.Lists.{length, get_elem?}
use cross_format_documment.Base.Maps.{Map, empty, put}
use cross_format_documment.Base.Result.{Result, ok, err, value_error, index_error, or_raise, ◌>>=◌}
use cross_format_documment.Model.{
  Value, null, str, int, flag, opaque, Node, NodeType, CanonicalDocument, attr, is_a,
}
use cross_format_documment.Patch.Op.{Patch, Env}
use cross_format_documment.Patch.Graph.{node_at, write, given, clamp_index, insert_child}
use cross_format_documment.Patch.Subtree.{remove_subtree, restore_subtree}
use cross_format_documment.Patch.Renumber.{row_cells, table_rows, number, renumber_table}
use cross_format_documment.Patch.Fields.{Step, require_type}

-- A new node of `BaseNode`'s defaults, under a parent.
abbrev new_node : String → NodeType → String → List String → Map Value → Node
new_node id type parent children fields = record {
  id = id;
  type = type;
  parent_id = some parent;
  children = children;
  bbox = null;
  attrs = empty;
  tags = [];
  fields = put fields "reading_order" null;
}

-- `TableRowNode(row=...)`, `TableCellNode(row=..., col=...)` and `RunNode(text=...)`
abbrev row_fields : ℕ → Map Value
row_fields row = put empty "row" (number row)

abbrev cell_fields : ℕ → ℕ → Map Value
cell_fields row col =
    put
      (put (put (put (put empty "row" (number row)) "col" (number col)) "row_span" (number 1))
        "col_span" (number 1))
      "header" (flag false)

abbrev pub run_fields : String → Map Value
run_fields text =
    put
      (put
        (put
          (put
            (put (put (put (put empty "text" (str text)) "bold" (flag false)) "italic" (flag false))
              "underline" (flag false))
            "font" null)
          "size" null)
        "color" null)
      "link_href" null

abbrev pub new_run : String → String → String → Node
new_run id parent text = new_node id NodeType.run parent [] (run_fields text)

-- `values[i] if i < len(values) else ""`
abbrev value_at : List String → ℕ → String
value_at values i = elim (get_elem? values i) [ none ↦ "" | some v ↦ v ]

-- `int(cols or table.cols or 1)`: how many cells `range` makes
unfoldable pub column_count : Option ℤ → Value → Result ℕ
column_count (some (pos (suc n))) cols = ok (suc n)
column_count (some (negsuc n)) cols = ok 0
column_count _ (int (pos (suc n))) = ok (suc n)
column_count _ (int (pos zero)) = ok 1
column_count _ (int (negsuc n)) = ok 0
column_count _ null = ok 1
column_count _ (flag b) = ok 1
column_count _ (str s) = if s == "" then ok 1 else err value_error
column_count _ (opaque true k) = err value_error
column_count _ (opaque false k) = ok 1

-- `max((len(_row_cells(doc, row)) for row in rows), default=0)`
unfoldable pub widest : CanonicalDocument → List (String × Node) → ℕ
widest doc [] = 0
widest doc ((rid, row) ∷ rows) = max (length (row_cells doc row)) (widest doc rows)

-- `rows.index(row)`; a node is told from the others by its id
unfoldable pub row_index : String → List (String × Node) → Option ℕ
row_index id [] = none
row_index id ((k, row) ∷ rows) =
    let rest = row_index id rows in
    if row.id == id then some 0 else elim rest [ none ↦ none | some i ↦ some (suc i) ]

-- The node object of a row: its state in the registry, where it still is.
abbrev live : CanonicalDocument → String × Node → Node
live doc (key, n) = elim (doc.nodes key) [ none ↦ n | some m ↦ m ]

-- `cells[index]` under `index is not None and index < len(cells)`
unfoldable pub cell_at : Option ℤ → List (String × Node) → Result (Option Node)
cell_at none cells = ok none
cell_at (some (pos i)) cells = ok (elim (get_elem? cells i) [ none ↦ none | some c ↦ some c.1 ])
cell_at (some (negsuc i)) cells = elim (get_elem? cells (length cells - (i + 1))) [
  | none ↦ err index_error
  | some c ↦ if leb (i + 1) (length cells) then ok (some c.1) else err index_error
]

module _ {D : Type 0} (env : Env D) where
  -- The ids of the new cells of a row: a cell and its run draw one id each.
  abbrev cell_id : ℕ → String
  cell_id drawn = env.new_node_id "cell" drawn

  abbrev run_id : ℕ → String
  run_id drawn = env.new_node_id "run" (suc drawn)

  unfoldable pub cell_ids : ℕ → ℕ → List String
  cell_ids drawn zero = []
  cell_ids drawn (suc cols) = cell_id drawn ∷ cell_ids (suc (suc drawn)) cols

  -- the loop over the columns of `insert_table_row`
  unfoldable pub add_cells :
      ℕ → CanonicalDocument → String → ℕ → ℕ → ℕ → List String → CanonicalDocument
  add_cells drawn doc row_id row col zero values = doc
  add_cells drawn doc row_id row col (suc cols) values =
      let cell =
        new_node (cell_id drawn) NodeType.table_cell row_id (run_id drawn ∷ [])
          (cell_fields row col) in
      let run = new_run (run_id drawn) (cell_id drawn) (value_at values col) in
      add_cells (suc (suc drawn)) (write (write doc (cell_id drawn) cell) (run_id drawn) run) row_id
        row (suc col) cols values

  -- a new cell of `insert_table_col` with its run, not yet linked
  abbrev pub new_cell : ℕ → CanonicalDocument → Node → ℕ → ℕ → List String → CanonicalDocument
  new_cell drawn doc row index row_i values =
      write
        (write doc (cell_id drawn) (
          new_node (cell_id drawn) NodeType.table_cell row.id (run_id drawn ∷ [])
            (cell_fields row_i index)))
        (run_id drawn) (new_run (run_id drawn) (cell_id drawn) (value_at values row_i))

  -- the new row of `insert_table_row`, not yet linked
  unfoldable pub add_row :
      ℕ
      → CanonicalDocument
      → Node
      → ℕ
      → Option ℤ
      → List String
      → Result (CanonicalDocument × String × ℕ)
  unfolding add_cells cell_ids column_count
  add_row drawn doc table index cols values = do
    count ← column_count cols (attr table "cols" (number 0))
    let row_id = env.new_node_id "row" drawn
    let row =
        new_node row_id NodeType.table_row table.id (cell_ids (suc drawn) count) (row_fields index)
    ok (
      add_cells (suc drawn) (write doc row_id row) row_id index 0 count values,
      row_id,
      suc (drawn + 2 * count),
    )

module _ {D : Type 0} (env : Env D) (drawn : ℕ) (doc : CanonicalDocument) where
  -- The row of `insert_table_row`: a new one, or the nodes of the payload.
  unfoldable pub made_row :
      Node → ℕ → List D → Option ℤ → List String → Result (CanonicalDocument × String × ℕ)
  unfolding restore_subtree add_row insert_child
  made_row table place [] cols values = do
    fresh ← add_row env drawn doc table place cols values
    linked ← insert_child fresh.0 table.id fresh.1 (some (pos place))
    ok (linked, fresh.1, fresh.2)
  made_row table place (x ∷ xs) cols values = do
    restored ← restore_subtree env doc (x ∷ xs) (some table.id) (some (pos place))
    ok (restored.0, restored.1, drawn)

  unfoldable pub insert_table_row :
      Option String → Option ℤ → List D → Option ℤ → List String → Result (Step D)
  unfolding clamp_index made_row renumber_table
  insert_table_row target index row_nodes cols values = do
    node ← node_at doc target
    table ← require_type NodeType.table node
    let place = clamp_index index (length (table_rows doc table))
    row ← made_row table place row_nodes cols values
    ok (record {
      doc = renumber_table row.0 table.id;
      inverse = Patch.remove_node (some row.1);
      drawn = row.2;
    })

  -- the row that `delete_table_row` means
  unfoldable pub chosen_row : Option String → Option ℤ → List (String × Node) → Result Node
  unfolding clamp_index
  chosen_row row_id index [] = err value_error
  chosen_row row_id index (r ∷ rows) = elim (given row_id) [
    | some rid ↦ or_raise (doc.nodes rid) value_error
    | none ↦ elim (get_elem? (r ∷ rows) (clamp_index index (length rows))) [
      | none ↦ err value_error
      | some c ↦ ok c.1
    ]
  ]

  unfoldable pub delete_table_row : Option String → Option String → Option ℤ → Result (Step D)
  unfolding chosen_row row_index remove_subtree renumber_table
  delete_table_row target row_id index = do
    node ← node_at doc target
    table ← require_type NodeType.table node
    let rows = table_rows doc table
    chosen ← chosen_row row_id index rows
    row ← require_type NodeType.table_row chosen
    place ← or_raise (row_index row.id rows) value_error
    removed ← remove_subtree env doc row.id
    ok (record {
      doc = renumber_table removed.0 table.id;
      inverse = Patch.insert_table_row (some table.id) (some (pos place)) removed.1 none [];
      drawn = drawn;
    })

  -- the loop over the rows of `insert_table_col`: a cell of the payload while there are any, then
  -- new ones; the ids of the cells come out in order
  unfoldable pub insert_cells :
      ℕ
      → CanonicalDocument
      → ℕ
      → ℕ
      → List (String × Node)
      → List (List D)
      → List String
      → Result (CanonicalDocument × List String × ℕ)
  unfolding restore_subtree insert_child
  insert_cells drawn doc index row_i [] cells values = ok (doc, [], drawn)
  insert_cells drawn doc index row_i ((_, row) ∷ rows) (x ∷ cells) values = do
    restored ← restore_subtree env doc x (some row.id) (some (pos index))
    rest ← insert_cells drawn restored.0 index (suc row_i) rows cells values
    ok (rest.0, restored.1 ∷ rest.1, rest.2)
  insert_cells drawn doc index row_i ((_, row) ∷ rows) [] values = do
    let cid = env.new_node_id "cell" drawn
    let placed = new_cell env drawn doc row index row_i values
    linked ← insert_child placed row.id cid (some (pos index))
    rest ← insert_cells (suc (suc drawn)) linked index (suc row_i) rows [] values
    ok (rest.0, cid ∷ rest.1, rest.2)

  unfoldable pub insert_table_col :
      Option String → Option ℤ → List (List D) → List String → Result (Step D)
  unfolding clamp_index widest insert_cells renumber_table
  insert_table_col target index cells values = do
    node ← node_at doc target
    table ← require_type NodeType.table node
    let rows = table_rows doc table
    let place = clamp_index index (widest doc rows)
    inserted ← insert_cells drawn doc place 0 rows cells values
    ok (record {
      doc = renumber_table inserted.0 table.id;
      inverse = Patch.delete_table_col (some table.id) (some (pos place)) inserted.1;
      drawn = inserted.2;
    })

  -- the cell of a row that `delete_table_col` means
  unfoldable pub chosen_cell :
      CanonicalDocument → Option String → Option ℤ → String × Node → Result (Option Node)
  unfolding cell_at
  chosen_cell doc cell_id index row = elim (given cell_id) [
    | some cid ↦ ok (doc.nodes cid)
    | none ↦ cell_at index (row_cells doc (live doc row))
  ]

  abbrev is_cell : Option Node → Option Node
  is_cell none = none
  is_cell (some n) = if is_a NodeType.table_cell n then some n else none

  -- the loop over the rows of `delete_table_col`; what was removed comes out in order
  unfoldable pub delete_cells :
      CanonicalDocument
      → Option ℤ
      → List (String × Node)
      → List String
      → Result (CanonicalDocument × List (List D))
  unfolding chosen_cell remove_subtree
  delete_cells doc index [] ids = ok (doc, [])
  delete_cells doc index (row ∷ rows) ids = do
    chosen ← chosen_cell doc (head? ids) index row
    let skipped = delete_cells doc index rows (tail ids)
    elim (is_cell chosen) [
      | none ↦ skipped
      | some cell ↦ remove_subtree env doc cell.id >>= λ removed.
          delete_cells removed.0 index rows (tail ids) >>= λ rest. ok (rest.0, removed.1 ∷ rest.1)
    ]

  unfoldable pub delete_table_col : Option String → Option ℤ → List String → Result (Step D)
  unfolding clamp_index widest delete_cells renumber_table
  delete_table_col target index ids = do
    node ← node_at doc target
    table ← require_type NodeType.table node
    let rows = table_rows doc table
    let place : Option ℤ = elim ids [
      | [] ↦ some (pos (clamp_index index (widest doc rows - 1)))
      | _ ∷ _ ↦ index
    ]
    deleted ← delete_cells doc place rows ids
    ok (record {
      doc = renumber_table deleted.0 table.id;
      inverse = Patch.insert_table_col (some table.id) place deleted.1 [];
      drawn = drawn;
    })
