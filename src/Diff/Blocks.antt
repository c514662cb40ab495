-- ===== src/Diff/Blocks.antt =====
-- `block_texts` of services/provenance/diff.py, and the walk of model/document.py (backend/src/docos)
-- that it goes by.
use cross_format_documment.Base.{
  ℕ, zero, suc, String, ◌==◌, Option, none, some, Bool, List, [], ◌∷◌, ◌++◌, if◌then◌else◌, ◌||◌,
}
use cross_format_documment.Base.Result.{Result, ok, err, type_error, diverges, ◌>>=◌}
use cross_format_documment.Base.Text.{join, strip}
use cross_format_documment.Model.{Value, str, Node, NodeType, CanonicalDocument, is_a}
use cross_format_documment.Redaction.{run_text}

-- `[self.nodes[cid] for cid in node.children if cid in self.nodes]`
unfoldable pub known_nodes : CanonicalDocument → List String → List Node
known_nodes doc [] = []
known_nodes doc (i ∷ ids) =
    let rest = known_nodes doc ids in elim (doc.nodes i) [ none ↦ rest | some n ↦ n ∷ rest ]

unfoldable pub children_of : CanonicalDocument → String → List Node
unfolding known_nodes
children_of doc i = elim (doc.nodes i) [ none ↦ [] | some n ↦ known_nodes doc n.children ]

-- `walk` from a stack, its top first; `diverges` where the rounds run out.
unfoldable pub walk : ℕ → CanonicalDocument → List String → Result (List Node)
walk zero doc stack = err diverges
walk (suc rounds) doc [] = ok []
walk (suc rounds) doc (i ∷ stack) =
    let skipped = walk rounds doc stack in
    elim (doc.nodes i) [
      | none ↦ skipped
      | some n ↦ do rest ← walk rounds doc (n.children ++ stack); ok (n ∷ rest)
    ]

abbrev pub is_block : Node → Bool
is_block n =
    is_a NodeType.heading n
    || is_a NodeType.paragraph n
    || is_a NodeType.list_item n
    || is_a NodeType.table_cell n

-- a text that `"".join` takes
abbrev pub joined : Option Value → Result String
joined none = err diverges
joined (some (str s)) = ok s
joined (some _) = err type_error

unfoldable pub texts_of_runs : ℕ → CanonicalDocument → List Node → Result String
unfolding run_text
texts_of_runs rounds doc [] = ok ""
texts_of_runs rounds doc (n ∷ nodes) =
    let rest = texts_of_runs rounds doc nodes in
    if is_a NodeType.run n
    then (do s ← joined (run_text rounds doc n); t ← rest; ok (join s t))
    else rest

unfoldable pub texts_of_blocks : ℕ → CanonicalDocument → List Node → Result (List String)
unfolding children_of texts_of_runs strip
texts_of_blocks rounds doc [] = ok []
texts_of_blocks rounds doc (n ∷ nodes) =
    let rest = texts_of_blocks rounds doc nodes in
    if is_block n
    then (do
      text ← texts_of_runs rounds doc (children_of doc n.id)
      out ← rest
      ok (if strip text == "" then out else strip text ∷ out))
    else rest

unfoldable pub block_texts : ℕ → CanonicalDocument → Result (List String)
unfolding walk texts_of_blocks
block_texts rounds doc = do
  nodes ← walk rounds doc (doc.root_id ∷ [])
  texts_of_blocks rounds doc nodes
