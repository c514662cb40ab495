-- ===== src/Redaction/Texts.antt =====
-- What the exported texts show of a redacted node, and that no spreadsheet cell starts a formula.
use Prim.Native.Char.{Char, code}
use cross_format_documment.Base.{
  ℕ, ◌<◌, String, ◌==◌, some, Bool, true, false, List, [], ◌∷◌, ◌≡◌, eqb, if◌then◌else◌, ◌↔◌, refl,
  false≢true,
}
use cross_format_documment.Base.Lists.{length}
use cross_format_documment.Model.{Node, CanonicalDocument, str, attr}
use cross_format_documment.Redaction.{is_redacted, run_text, node_text}
use cross_format_documment.Redaction.Ancestors.{Covered, IsKeys, is_redacted-decides}

texts_by_answer :
    (doc : CanonicalDocument) (rounds : ℕ) (node : Node) (b : Bool)
    → is_redacted rounds doc (some node.id) ≡ some b
    → ((b ≡ true) ↔ Covered doc node.id)
    → (Covered doc node.id
        → (run_text rounds doc node ≡ some (str "")) × (node_text rounds doc node ≡ some (str "")))
      × (¬ (Covered doc node.id) → run_text rounds doc node ≡ some (attr node "text" (str "")))
unfolding run_text node_text
texts_by_answer doc rounds node true found decides = (
  λ c. (rw (run_text, found) refl, rw (node_text, found) refl),
  λ not_covered. absurd (not_covered (decides.0 refl)),
)
texts_by_answer doc rounds node false found decides =
    (λ c. absurd (false≢true (decides.1 c)), λ not_covered. rw (run_text, found) refl)

-- With more rounds than the registry has keys: where the node or an ancestor is marked, both texts
-- are empty; otherwise a run's text is the text it has.
pub texts_of_covered :
    (doc : CanonicalDocument) (ks : List String) (rounds : ℕ) (node : Node)
    → IsKeys doc ks
    → length ks < rounds
    → (node.id == "") ≡ false
    → (Covered doc node.id
        → (run_text rounds doc node ≡ some (str "")) × (node_text rounds doc node ≡ some (str "")))
      × (¬ (Covered doc node.id) → run_text rounds doc node ≡ some (attr node "text" (str "")))
texts_of_covered doc ks rounds node keys enough id =
    let (b, found, decides) = is_redacted-decides doc ks rounds node.id keys enough id in
    texts_by_answer doc rounds node b found decides

abbrev pub contains_code : ℕ → List ℕ → Bool
contains_code n [] = false
contains_code n (m ∷ codes) = if eqb n m then true else contains_code n codes

-- the codes of = + - @ tab and carriage return, which start a formula
abbrev pub formula_codes : List ℕ
formula_codes = 61 ∷ 43 ∷ 45 ∷ 64 ∷ 9 ∷ 13 ∷ []

-- The text starts with a character of that code.
abbrev pub Starts : ℕ → List Char → Type 0
Starts n text = (c : Char) × (rest : List Char) × (text ≡ c ∷ rest) × (code c ≡ n)
