-- ===== src/Patch/Cell.antt =====
-- The branch of `_apply_one` for `set_table_cell`.
use cross_format_documment.Base.{
  ℕ, suc, String, Option, none, some, Bool, false, List, [], ◌∷◌, ◌++◌, ◌==◌, if◌then◌else◌,
}
use cross_format_documment.Base.Maps.{Map, put, del}
use cross_format_documment.Base.Text.{strip, join}
use cross_format_documment.Base.Result.{Result, ok, err, type_error, ◌>>=◌}
use cross_format_documment.Model.{Value, str, flag, truthy, Node, NodeType, CanonicalDocument, attr}
use cross_format_documment.Patch.Op.{Patch, Env, CellPayload}
use cross_format_documment.Patch.Graph.{node_at, write, set_attr, set_children}
use cross_format_documment.Patch.Renumber.{children_with_type, set_attr_at}
use cross_format_documment.Patch.Fields.{Step, require_type}
use cross_format_documment.Patch.Table.{new_run}

-- `"".join` takes texts only.
unfoldable pub join_texts : List (String × Node) → Result String
join_texts [] = ok ""
join_texts ((_, run) ∷ runs) =
    let rest = join_texts runs in
    elim (attr run "text" (str "")) [ str s ↦ rest >>= λ t. ok (join s t) | _ ↦ err type_error ]

-- `_cell_text`
unfoldable pub cell_text : CanonicalDocument → Node → Result String
unfolding join_texts children_with_type
cell_text doc cell = join_texts (children_with_type NodeType.run doc cell.children)

-- the effect of the key `number_format`
unfoldable pub with_number_format : Option Value → Map Value → Map Value
unfolding truthy
with_number_format none attrs = attrs
with_number_format (some v) attrs =
    if truthy v then put attrs "number_format" v else del attrs "number_format"

-- the effect of the key `formula`
unfoldable pub with_formula : Option Value → Map Value → Map Value
unfolding strip
with_formula (some (str s)) attrs =
    if strip s == "" then del attrs "formula" else put attrs "formula" (str (strip s))
with_formula (some v) attrs = del attrs "formula"
with_formula none attrs = attrs

-- the effect of the key `header`
abbrev with_header : Option Bool → Node → Node
with_header none n = n
with_header (some b) n = set_attr n "header" (flag b)

module _ {D : Type 0} (env : Env D) (drawn : ℕ) where
  -- The text goes to the first run of the cell, which is made where there is none.
  unfoldable pub write_text :
      CanonicalDocument → String → Node → Option String → CanonicalDocument × ℕ
  unfolding children_with_type
  write_text doc key cell none = (doc, drawn)
  write_text doc key cell (some text) = elim (children_with_type NodeType.run doc cell.children) [
    | (rid, _) ∷ _ ↦ (set_attr_at doc rid "text" (str text), drawn)
    | [] ↦
        let rid = env.new_node_id "run" drawn in
        (
          write (write doc rid (new_run rid cell.id text)) key
              (set_children cell (cell.children ++ rid ∷ [])),
          suc drawn,
        )
  ]

  unfoldable pub set_table_cell : CanonicalDocument → Option String → CellPayload → Result (Step D)
  unfolding cell_text write_text with_number_format with_formula truthy
  set_table_cell doc none payload = node_at doc none >>= λ _. err type_error
  set_table_cell doc (some tid) payload = do
    node ← node_at doc (some tid)
    cell ← require_type NodeType.table_cell node
    before ← cell_text doc cell
    let written = write_text doc tid cell payload.text
    now ← node_at written.0 (some tid)
    let marked = with_header payload.header now
    ok (record {
      doc = write written.0 tid (record marked {
        attrs =
            with_formula payload.formula (with_number_format payload.number_format marked.attrs);
      });
      inverse = Patch.set_table_cell (some cell.id) (record {
        text = some before;
        header = some (truthy (attr cell "header" (flag false)));
        number_format = none;
        formula = none;
        attrs = some cell.attrs;
      });
      drawn = written.1;
    })
