-- ===== src/Sensitive/Scan.antt =====
-- `_scan_text`, `scan_document` and what the findings are counted and redacted by.
use cross_format_documment.Base.{
  ℕ, suc, String, ◌==◌, Option, none, some, Bool, true, false, ◌&&◌, List, [], ◌∷◌, ◌++◌, map, ltb,
  if◌then◌else◌,
}
use cross_format_documment.Base.Lists.{any_of, contains}
use cross_format_documment.Base.Result.{Result, ok, err, type_error, diverges, ◌>>=◌}
use cross_format_documment.Base.Text.{chars, of_chars}
use cross_format_documment.Model.{Value, str, truthy, Node, CanonicalDocument, attr}
use cross_format_documment.Redaction.{is_redacted}
use cross_format_documment.Sensitive.Mask.{CharTables, mask, digits_of, luhn_ok}

-- A match of a regular expression.
pub record Hit : Type 0 where
  pub start : ℕ
  pub stop : ℕ
  pub value : String

-- What is taken from outside: `finditer` of each category's expression, and the check of phone numbers.
pub record Detectors : Type 0 where
  pub patterns : List (String × (String → List Hit))
  pub phone_ok : String → Bool
  pub tables : CharTables

pub record SensitiveFinding : Type 0 where
  pub node_id : String
  pub category : String
  pub label : String
  pub excerpt : String

-- `CATEGORY_LABELS.get(category, default)`
abbrev pub labelled : String → String → String
labelled c default =
    if c == "email"
    then "Email address"
    else if c == "us_ssn"
    then "US Social Security number"
    else if c == "credit_card"
    then "Payment card number"
    else if c == "phone"
    then "Phone number"
    else if c == "ipv4"
    then "IP address"
    else default

-- `CATEGORY_LABELS.get(category, category)`
abbrev pub label_of : String → String
label_of c = labelled c c

-- `overlaps`
abbrev pub overlaps : List (ℕ × ℕ) → Hit → Bool
overlaps claimed hit = any_of (λ c. ltb hit.start c.1 && ltb c.0 hit.stop) claimed

module _ (detectors : Detectors) where
  -- A card that is none, and a number that is none, are passed over.
  unfoldable pub is_real : String → Hit → Bool
  unfolding luhn_ok
  is_real category hit =
      if category == "credit_card"
      then luhn_ok detectors.tables (digits_of detectors.tables (chars hit.value))
      else if category == "phone"
      then detectors.phone_ok hit.value
      else true

  -- One category's matches: what is yielded, and the spans that are claimed then.
  unfoldable pub scan_hits :
      String → List Hit → List (ℕ × ℕ) → List (String × String) × List (ℕ × ℕ)
  unfolding is_real
  scan_hits category [] claimed = ([], claimed)
  scan_hits category (hit ∷ hits) claimed =
      let passed = scan_hits category hits claimed in
      let taken = scan_hits category hits (claimed ++ (hit.start, hit.stop) ∷ []) in
      if overlaps claimed hit
      then passed
      else if is_real category hit
      then ((category, hit.value) ∷ taken.0, taken.1)
      else passed

  unfoldable pub scan_patterns :
      List (String × (String → List Hit)) → List (ℕ × ℕ) → String → List (String × String)
  unfolding scan_hits
  scan_patterns [] claimed text = []
  scan_patterns ((category, finditer) ∷ patterns) claimed text =
      let (found, claimed') = scan_hits category (finditer text) claimed in
      found ++ scan_patterns patterns claimed' text

  unfoldable pub scan_text : String → List (String × String)
  unfolding scan_patterns
  scan_text text = scan_patterns detectors.patterns [] text

  unfoldable pub finding_of : String → String × String → SensitiveFinding
  unfolding mask
  finding_of node_id (category, value) = record {
    node_id = node_id;
    category = category;
    label = label_of category;
    excerpt = of_chars (mask detectors.tables (chars value));
  }

  -- The findings in a text that counts as true.
  unfoldable pub findings_in : Node → Value → Result (List SensitiveFinding)
  unfolding scan_text finding_of
  findings_in node (str text) = ok (map (finding_of node.id) (scan_text text))
  findings_in node v = err type_error

-- The loop over the nodes that both engines have, with what an engine finds in a text.
module _ (findings_at : Node → Value → Result (List SensitiveFinding)) (rounds : ℕ)
    (doc : CanonicalDocument) where
  -- One node, by whether it is redacted.
  unfoldable pub scan_node : Node → Option Bool → Result (List SensitiveFinding)
  scan_node node none = err diverges
  scan_node node (some true) = ok []
  scan_node node (some false) = findings_at node (attr node "text" (str ""))

  unfoldable pub scan_nodes : List Node → Result (List SensitiveFinding)
  unfolding scan_node is_redacted truthy
  scan_nodes [] = ok []
  scan_nodes (node ∷ nodes) =
      let later = scan_nodes nodes in
      if truthy (attr node "text" (str ""))
      then (scan_node node (is_redacted rounds doc (some node.id)) >>= λ found.
          later >>= λ rest. ok (found ++ rest))
      else later

unfoldable pub scan_document :
    Detectors → ℕ → CanonicalDocument → List Node → Result (List SensitiveFinding)
unfolding scan_nodes findings_in
scan_document detectors rounds doc nodes = scan_nodes (findings_in detectors) rounds doc nodes

-- `seen`, in the order of the first findings
unfoldable pub ids_from : List String → List SensitiveFinding → List String
ids_from seen [] = []
ids_from seen (f ∷ findings) =
    let known = ids_from seen findings in
    let new = ids_from (f.node_id ∷ seen) findings in
    if contains f.node_id seen then known else f.node_id ∷ new

unfoldable pub redaction_node_ids : List SensitiveFinding → List String
unfolding ids_from
redaction_node_ids findings = ids_from [] findings

-- `summarize`: how often each category was found, in the order of the first findings
abbrev pub counted : String → List (String × ℕ) → List (String × ℕ)
counted c [] = (c, 1) ∷ []
counted c ((d, n) ∷ counts) = if d == c then (d, suc n) ∷ counts else (d, n) ∷ counted c counts

unfoldable pub summarize_from : List (String × ℕ) → List SensitiveFinding → List (String × ℕ)
summarize_from counts [] = counts
summarize_from counts (f ∷ findings) = summarize_from (counted f.category counts) findings

unfoldable pub summarize : List SensitiveFinding → List (String × ℕ)
unfolding summarize_from
summarize findings = summarize_from [] findings
