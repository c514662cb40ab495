-- ===== src/Prompt/Coerce.antt =====
-- The tool calls of a language model, read into operations: services/semantic/prompt.py
-- (backend/src/docos).
use cross_format_documment.Base.{
  String, ◌==◌, Option, none, some, List, [], ◌∷◌, ◌++◌, if◌then◌else◌,
}
use cross_format_documment.Base.Lists.{contains}
use cross_format_documment.Base.Maps.{Map}
use cross_format_documment.Model.{Value, str, Node, NodeType, CanonicalDocument, is_a}
use cross_format_documment.Patch.Op.{Patch, CellPayload}

-- One item of `ops`: the keys that are read, and those of the formatting fields that are there.
pub record RawOp : Type 0 where
  pub op : Option String
  pub target_id : Option String
  pub text : Option Value
  pub formats : Map Value
  pub tags : List String

pub record ToolCall : Type 0 where
  pub name : Option String
  pub ops : List RawOp

abbrev pub allowed_ops : List String
allowed_ops =
    "set_text" ∷ "update_node" ∷ "retag" ∷ "redact" ∷ "remove_node" ∷ "sanitize_metadata"
    ∷ "set_table_cell" ∷ []

abbrev pub format_fields : List String
format_fields = "bold" ∷ "italic" ∷ "underline" ∷ "font" ∷ "size" ∷ "color" ∷ []

-- `{f: raw[f] for f in fields if f in raw}`
unfoldable pub formats_of : Map Value → List String → List (String × Value)
formats_of raw [] = []
formats_of raw (f ∷ fields) =
    let rest = formats_of raw fields in elim (raw f) [ none ↦ rest | some v ↦ (f, v) ∷ rest ]

-- `raw.get("text", "")`
abbrev pub text_of : RawOp → Value
text_of raw = elim raw.text [ none ↦ str "" | some v ↦ v ]

-- the payload `{"text": ...}`, on which the executor calls `str`
abbrev pub cell_payload : (Value → String) → RawOp → CellPayload
cell_payload as_text raw = record {
  text = some (as_text (text_of raw));
  header = none;
  number_format = none;
  formula = none;
  attrs = none;
}

-- `None` where no formatting field is there
abbrev pub format_op : {D : Type 0} → String → List (String × Value) → Option (Patch D)
format_op t [] = none
format_op t (f ∷ fields) = some (Patch.update_node (some t) (f ∷ fields))

-- `if patch is not None: patches.append(patch)`, with what comes after it
abbrev pub prepend : {D : Type 0} → Option (Patch D) → List (Patch D) → List (Patch D)
prepend none rest = rest
prepend (some p) rest = p ∷ rest

-- `as_text` is Python's `str` on a value.
module _ {D : Type 0} (doc : CanonicalDocument) (as_text : Value → String) where
  -- `_coerce_op` once the target is known to be there.
  unfoldable pub targeted : String → String → Node → RawOp → Option (Patch D)
  unfolding formats_of
  targeted op t node raw =
      if op == "set_text"
      then some (Patch.set_text (some t) (text_of raw))
      else if op == "set_table_cell"
      then (if is_a NodeType.table_cell node
          then some (Patch.set_table_cell (some t) (cell_payload as_text raw))
          else none)
      else if op == "update_node"
      then format_op t (formats_of raw.formats format_fields)
      else if op == "retag"
      then some (Patch.retag (some t) raw.tags)
      else if op == "redact"
      then some (Patch.redact (some t))
      else if op == "remove_node"
      then some (Patch.remove_node (some t))
      else none

  -- `not target_id or target_id not in doc.nodes`, and the rest
  unfoldable pub on_target : String → Option String → RawOp → Option (Patch D)
  unfolding targeted
  on_target op none raw = none
  on_target op (some t) raw = elim (doc.nodes t) [
    | none ↦ none
    | some node ↦ if t == "" then none else targeted op t node raw
  ]

  unfoldable pub coerce_named : String → RawOp → Option (Patch D)
  unfolding on_target
  coerce_named op raw =
      if contains op allowed_ops
      then (if op == "sanitize_metadata"
          then some (Patch.sanitize_metadata [])
          else on_target op raw.target_id raw)
      else none

  unfoldable pub coerce_op : RawOp → Option (Patch D)
  unfolding coerce_named
  coerce_op raw = elim raw.op [ none ↦ none | some op ↦ coerce_named op raw ]

  unfoldable pub coerce_all : List RawOp → List (Patch D)
  unfolding coerce_op
  coerce_all [] = []
  coerce_all (raw ∷ ops) = prepend (coerce_op raw) (coerce_all ops)

  unfoldable pub ops_from_tool_calls : List ToolCall → List (Patch D)
  unfolding coerce_all
  ops_from_tool_calls [] = []
  ops_from_tool_calls (call ∷ calls) =
      let rest = ops_from_tool_calls calls in
      elim call.name [
        | none ↦ rest
        | some name ↦ if name == "emit_patch" then coerce_all call.ops ++ rest else rest
      ]
