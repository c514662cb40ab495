-- ===== src/Sensitive/Presidio.antt =====
-- services/provenance/presidio.py and pii.py (backend/src/docos): the findings of the other engine,
-- and the scan that adds them. The analyzer of the package presidio-analyzer is a parameter.
use Prim.Native.Char.{Char}
use cross_format_documment.Base.{
  ℕ, zero, suc, String, ◌==◌, Option, none, some, ◌&&◌, List, [], ◌∷◌, ◌++◌, ltb, if◌then◌else◌,
}
use cross_format_documment.Base.Lists.{any_of}
use cross_format_documment.Base.Result.{Result, ok, ◌>>=◌}
use cross_format_documment.Base.Text.{chars, of_chars, strip}
use cross_format_documment.Model.{Value, str, Node, CanonicalDocument}
use cross_format_documment.Sensitive.Mask.{CharTables, mask}
use cross_format_documment.Sensitive.Scan.{
  Detectors, SensitiveFinding, labelled, scan_nodes, scan_document,
}

-- What the analyzer finds in a text. The score is in thousandths.
pub record RecognizerResult : Type 0 where
  pub entity_type : String
  pub start : ℕ
  pub stop : ℕ
  pub score : ℕ

-- `analyze` in English, `none` where it raises, and `str.lower` by the tables of Unicode.
pub record Analyzer : Type 0 where
  pub analyze : String → Option (List RecognizerResult)
  pub lower : String → String

-- `_ENTITY_CATEGORY`
abbrev pub entity_category : List (String × String)
entity_category =
    ("EMAIL_ADDRESS", "email")
    ∷ ("US_SSN", "us_ssn")
    ∷ ("CREDIT_CARD", "credit_card")
    ∷ ("PHONE_NUMBER", "phone")
    ∷ ("IP_ADDRESS", "ipv4")
    ∷ ("PERSON", "person")
    ∷ ("LOCATION", "location")
    ∷ ("DATE_TIME", "date_time")
    ∷ ("NRP", "nationality")
    ∷ ("MEDICAL_LICENSE", "medical_license")
    ∷ ("IBAN_CODE", "iban")
    ∷ ("US_DRIVER_LICENSE", "us_driver_license")
    ∷ ("US_PASSPORT", "us_passport")
    ∷ []

-- `_EXTRA_LABELS`
abbrev pub extra_labels : List (String × String)
extra_labels =
    ("person", "Person name")
    ∷ ("location", "Location")
    ∷ ("date_time", "Date / time")
    ∷ ("nationality", "Nationality / religion / group")
    ∷ ("medical_license", "Medical license")
    ∷ ("iban", "IBAN")
    ∷ ("us_driver_license", "US driver license")
    ∷ ("us_passport", "US passport")
    ∷ []

-- `table.get(key, default)`
abbrev pub get_text : List (String × String) → String → String → String
get_text [] key default = default
get_text ((k, v) ∷ table) key default = if k == key then v else get_text table key default

-- `text[start:end]`
abbrev pub cut : ℕ → ℕ → List Char → List Char
cut start zero cs = []
cut start (suc n) [] = []
cut zero (suc n) (c ∷ cs) = c ∷ cut zero n cs
cut (suc start) (suc n) (c ∷ cs) = cut start n cs

module _ (tables : CharTables) (analyzer : Analyzer) where
  -- A result that is too weak, or a blank value, is passed over.
  unfoldable pub map_results : String → List Char → List RecognizerResult → List SensitiveFinding
  unfolding mask strip
  map_results node_id text [] = []
  map_results node_id text (r ∷ results) =
      let later = map_results node_id text results in
      let category = get_text entity_category r.entity_type (analyzer.lower r.entity_type) in
      let value = cut r.start r.stop text in
      if ltb r.score 500
      then later
      else if strip (of_chars value) == ""
      then later
      else record {
        node_id = node_id;
        category = category;
        label = labelled category (get_text extra_labels category category);
        excerpt = of_chars (mask tables value);
      }
        ∷ later

  -- The findings in a text that counts as true. A value that is no text does not come here: the
  -- built-in scan, which is first, raises at it.
  unfoldable pub analyzed : Node → Value → Result (List SensitiveFinding)
  unfolding map_results
  analyzed node (str text) = elim (analyzer.analyze text) [
    | none ↦ ok []
    | some results ↦ ok (map_results node.id (chars text) results)
  ]
  analyzed node v = ok []

  unfoldable pub presidio_findings :
      ℕ → CanonicalDocument → List Node → Result (List SensitiveFinding)
  unfolding scan_nodes analyzed
  presidio_findings rounds doc nodes = scan_nodes analyzed rounds doc nodes

-- `_merge`: findings of another engine that are new by node and category
unfoldable pub merge : List SensitiveFinding → List SensitiveFinding → List SensitiveFinding
merge findings [] = findings
merge findings (f ∷ extra) =
    if any_of (λ g. g.node_id == f.node_id && g.category == f.category) findings
    then merge findings extra
    else merge (findings ++ f ∷ []) extra

-- The other engine's findings are added where it is chosen and installed.
unfoldable pub with_engine :
    CharTables
    → Option Analyzer
    → ℕ
    → CanonicalDocument
    → List Node
    → List SensitiveFinding
    → Result (List SensitiveFinding)
unfolding merge presidio_findings
with_engine tables none rounds doc nodes findings = ok findings
with_engine tables (some analyzer) rounds doc nodes findings =
    presidio_findings tables analyzer rounds doc nodes >>= λ extra. ok (merge findings extra)

unfoldable pub scan :
    Detectors → ℕ → Option Analyzer → CanonicalDocument → List Node → Result (List SensitiveFinding)
unfolding scan_document with_engine
scan detectors rounds engine doc nodes = scan_document detectors rounds doc nodes >>= λ findings.
    with_engine detectors.tables engine rounds doc nodes findings
