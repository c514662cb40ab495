-- ===== src/Sensitive/Tests.antt =====
-- A document with an e-mail address, scanned, redacted and scanned again.
use cross_format_documment.Base.{
  String, ◌==◌, none, some, true, false, List, [], ◌∷◌, ◌≡◌, refl, arith, eq_iff, if◌then◌else◌,
}
use cross_format_documment.Base.Maps.{empty, put}
use cross_format_documment.Base.Result.{ok}
use cross_format_documment.Model.{null, str, Node, NodeType, CanonicalDocument}
use cross_format_documment.Redaction.{is_redacted, climb}
use cross_format_documment.Redaction.Ancestors.{IsKeys}
use cross_format_documment.Patch.Op.{Patch}
use cross_format_documment.Patch.Fields
use cross_format_documment.Patch.Execute.{Applied, apply, apply_one}
use cross_format_documment.Versions.Samples.{bare_env}
use cross_format_documment.Versions.Samples
use cross_format_documment.Sensitive.Mask.{CharTables, mask, luhn_ok}
use cross_format_documment.Sensitive.Scan.{
  Detectors, SensitiveFinding, scan_document, scan_nodes, redaction_node_ids,
}
use cross_format_documment.Sensitive.Presidio.{
  Analyzer, with_engine, presidio_findings, map_results, merge, scan,
}
use cross_format_documment.Sensitive.Routes.{redact_ops}
use cross_format_documment.Sensitive.Clean.{rescan_is_clean}

abbrev all_letters : CharTables
all_letters = record { is_alnum = λ c. true; digit = λ c. none }

-- One pattern, which matches the text "a@b.io" as a whole.
abbrev one_address : Detectors
one_address = record {
  patterns =
      (
        "email",
        λ text. if text == "a@b.io" then record { start = 0; stop = 6; value = text } ∷ [] else [],
      )
      ∷ [];
  phone_ok = λ t. true;
  tables = all_letters;
}

abbrev run_node : String → String → Node
run_node id text = record {
  id = id;
  type = NodeType.run;
  parent_id = none;
  children = [];
  bbox = null;
  attrs = empty;
  tags = [];
  fields = put empty "text" (str text);
}

abbrev letter : CanonicalDocument
letter = record (Samples.marked []) {
  nodes = put (put empty "a" (run_node "a" "a@b.io")) "b" (run_node "b" "dear Ann");
}

abbrev letter_nodes : List Node
letter_nodes = run_node "a" "a@b.io" ∷ run_node "b" "dear Ann" ∷ []

letter-IsKeys : IsKeys letter ("a" ∷ "b" ∷ [])
letter-IsKeys i n h = ground (arith, eq_iff "a" i, eq_iff "b" i)

abbrev address_found : List SensitiveFinding
address_found =
    record { node_id = "a"; category = "email"; label = "Email address"; excerpt = "••••io" }
    ∷ record { node_id = "b"; category = "person"; label = "Person name"; excerpt = "••nn" }
    ∷ []

-- An engine that takes the text "dear Ann" for one that names a person.
abbrev names_people : Analyzer
names_people = record {
  analyze = λ text.
      if text == "dear Ann"
      then some (record { entity_type = "PERSON"; start = 4; stop = 8; score = 850 } ∷ [])
      else none;
  lower = λ t. t;
}

address_is_found : scan one_address 3 (some names_people) letter letter_nodes ≡ ok address_found
unfolding scan scan_document scan_nodes with_engine presidio_findings map_results merge is_redacted
    climb mask
address_is_found = refl

abbrev cleaned : Applied Node
cleaned = record {
  doc = record letter {
    redaction = record (letter.redaction) { redacted_node_ids = "a" ∷ "b" ∷ [] };
  };
  inverse = Patch.unredact (some "b") ∷ Patch.unredact (some "a") ∷ [];
  drawn = 0;
}

address_is_redacted :
    apply bare_env 0 letter (redact_ops (redaction_node_ids address_found)) ≡ ok cleaned
unfolding apply apply_one Fields.redact redaction_node_ids
address_is_redacted = refl

rescan_is_clean_example : scan one_address 3 (some names_people) cleaned.doc letter_nodes ≡ ok []
rescan_is_clean_example =
    rescan_is_clean bare_env one_address (some names_people) 3 0 letter ("a" ∷ "b" ∷ [])
      letter_nodes address_found cleaned letter-IsKeys (omega arith) (refl, (refl, tt))
      address_is_found address_is_redacted

-- The card number 4111 1111 1111 1111, and one with another last digit.
card_is_real :
    luhn_ok all_letters (4 ∷ 1 ∷ 1 ∷ 1 ∷ 1 ∷ 1 ∷ 1 ∷ 1 ∷ 1 ∷ 1 ∷ 1 ∷ 1 ∷ 1 ∷ 1 ∷ 1 ∷ 1 ∷ []) ≡ true
unfolding luhn_ok
card_is_real = refl

typo_is_not_real :
    luhn_ok all_letters (4 ∷ 1 ∷ 1 ∷ 1 ∷ 1 ∷ 1 ∷ 1 ∷ 1 ∷ 1 ∷ 1 ∷ 1 ∷ 1 ∷ 1 ∷ 1 ∷ 1 ∷ 2 ∷ []) ≡ false
unfolding luhn_ok
typo_is_not_real = refl
