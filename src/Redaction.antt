-- ===== src/Redaction.antt =====
-- services/docengine/writers/redaction.py (backend/src/docos): what exports may show.
pub mod Ancestors
pub mod Texts
mod Tests
use cross_format_documment.Base.{
  ℕ, zero, suc, String, ◌==◌, Option, none, some, Bool, true, false, List, [], ◌∷◌, eqb,
  if◌then◌else◌,
}
use cross_format_documment.Base.Lists.{contains}
use cross_format_documment.Base.Text.{chars, join}
use cross_format_documment.Model.{
  Value, null, str, truthy, Node, NodeType, CanonicalDocument, attr, is_a,
}
use Prim.Native.Char.{Char, code}

-- the truth of a list
abbrev pub is_empty {ℓ} : {A : Type ℓ} → List A → Bool
is_empty [] = true
is_empty (x ∷ xs) = false

-- `node.parent_id if node else None`, with the loop's test `current` on it
abbrev pub parent_of : CanonicalDocument → String → Option String
parent_of doc i = elim (doc.nodes i) [
  | none ↦ none
  | some n ↦ elim n.parent_id [ none ↦ none | some p ↦ if p == "" then none else some p ]
]

-- The loop of `is_redacted` from an id that is not empty; `none` means that the rounds ran out.
unfoldable pub climb : ℕ → CanonicalDocument → List String → String → Option Bool
climb zero doc seen current = none
climb (suc rounds) doc seen current =
    let next : Option Bool = elim (parent_of doc current) [
      | none ↦ some false
      | some p ↦ climb rounds doc (current ∷ seen) p
    ] in
    if contains current seen
    then some false
    else if contains current doc.redaction.redacted_node_ids
    then some true
    else next

unfoldable pub is_redacted : ℕ → CanonicalDocument → Option String → Option Bool
unfolding climb
is_redacted rounds doc none = some false
is_redacted rounds doc (some i) =
    let found = climb rounds doc [] i in
    if is_empty doc.redaction.redacted_node_ids
    then some false
    else if i == ""
    then some false
    else found

-- The exportable text of a run: empty where redacted.
unfoldable pub run_text : ℕ → CanonicalDocument → Node → Option Value
unfolding is_redacted
run_text rounds doc node = elim (is_redacted rounds doc (some node.id)) [
  | none ↦ none
  | some true ↦ some (str "")
  | some false ↦ some (attr node "text" (str ""))
]

-- `v or ""`
abbrev or_empty : Value → Value
or_empty v = if truthy v then v else str ""

unfoldable pub node_text : ℕ → CanonicalDocument → Node → Option Value
unfolding is_redacted truthy
node_text rounds doc node = elim (is_redacted rounds doc (some node.id)) [
  | none ↦ none
  | some true ↦ some (str "")
  | some false ↦ some (
      if is_a NodeType.field node
      then or_empty (attr node "value" null)
      else if is_a NodeType.image node
      then or_empty (attr node "alt_text" null)
      else attr node "text" (str ""))
]

-- `_SPREADSHEET_FORMULA_PREFIXES`: = + - @ tab and carriage return
abbrev is_formula_prefix : ℕ → Bool
is_formula_prefix c =
    if eqb c 61
    then true
    else if eqb c 43
    then true
    else if eqb c 45
    then true
    else if eqb c 64
    then true
    else if eqb c 9
    then true
    else eqb c 13

abbrev pub quoted : List Char → Bool
quoted [] = false
quoted (c ∷ cs) = is_formula_prefix (code c)

-- Spreadsheet cells that a program may read as formulas get a leading apostrophe.
unfoldable pub spreadsheet_text : String → String
spreadsheet_text value = if quoted (chars value) then join "'" value else value
