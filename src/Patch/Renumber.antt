-- ===== src/Patch/Renumber.antt =====
-- The helpers of the executor that read a table, and `_renumber_table`.
use cross_format_documment.Base.{
  ℕ, suc, max, String, Option, none, some, List, [], ◌∷◌, if◌then◌else◌,
}
use cross_format_documment.Base.Int.{pos}
use cross_format_documment.Base.Lists.{length}
use cross_format_documment.Model.{Value, int, Node, NodeType, is_a, CanonicalDocument}
use cross_format_documment.Patch.Graph.{write, set_attr, known}

-- The known children of a type, as (key, node): `_row_cells`, `_table_rows`, and the runs of
-- `_cell_text` and `_first_run_child`.
unfoldable pub children_with_type :
    NodeType → CanonicalDocument → List String → List (String × Node)
children_with_type t doc [] = []
children_with_type t doc (cid ∷ cids) =
    let rest = children_with_type t doc cids in
    elim (doc.nodes cid) [ none ↦ rest | some n ↦ if is_a t n then (cid, n) ∷ rest else rest ]

abbrev pub row_cells : CanonicalDocument → Node → List (String × Node)
row_cells doc row = children_with_type NodeType.table_cell doc row.children

abbrev pub table_rows : CanonicalDocument → Node → List (String × Node)
table_rows doc table = children_with_type NodeType.table_row doc table.children

abbrev pub number : ℕ → Value
number n = int (pos n)

-- `setattr(doc.nodes[key], name, v)` on a node that is there
abbrev pub set_attr_at : CanonicalDocument → String → String → Value → CanonicalDocument
set_attr_at doc key name v = elim (doc.nodes key) [
  | none ↦ doc
  | some n ↦ write doc key (set_attr n name v)
]

-- the inner loop of `_renumber_table`
unfoldable pub number_cells : ℕ → ℕ → CanonicalDocument → List (String × Node) → CanonicalDocument
number_cells ri ci doc [] = doc
number_cells ri ci doc ((cid, _) ∷ cells) =
    number_cells ri (suc ci)
      (set_attr_at (set_attr_at doc cid "row" (number ri)) cid "col" (number ci)) cells

-- the outer loop of `_renumber_table`, with the largest number of cells so far
unfoldable pub number_rows :
    ℕ → ℕ → CanonicalDocument → List (String × Node) → CanonicalDocument × ℕ
unfolding number_cells children_with_type
number_rows ri most doc [] = (doc, most)
number_rows ri most doc ((rid, row) ∷ rows) =
    let cells = row_cells doc row in
    number_rows (suc ri) (max most (length cells))
      (number_cells ri 0 (set_attr_at doc rid "row" (number ri)) cells) rows

-- `_renumber_table`
unfoldable pub renumber_table : CanonicalDocument → String → CanonicalDocument
unfolding number_rows children_with_type
renumber_table doc tid = elim (doc.nodes tid) [
  | none ↦ doc
  | some table ↦
      if is_a NodeType.table table
      then (let rows = table_rows doc table in
          let (numbered, most) = number_rows 0 0 doc rows in
          set_attr_at (set_attr_at numbered tid "rows" (number (length rows))) tid "cols"
            (number most))
      else doc
]

-- `if parent_id and parent_id in doc.nodes and doc.nodes[parent_id].type == "table"`
unfoldable pub renumber_if_table : CanonicalDocument → Option String → CanonicalDocument
unfolding renumber_table
renumber_if_table doc parent_id = elim (known doc parent_id) [
  | none ↦ doc
  | some p ↦ renumber_table doc p
]
