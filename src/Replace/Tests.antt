-- ===== src/Replace/Tests.antt =====
-- A text in which a word is replaced, and a document with a redacted run.
use Prim.Native.Char.{code}
use cross_format_documment.Base.{
  ℕ, String, none, some, true, false, List, [], ◌∷◌, map, ◌≡◌, refl, arith, leb, ◌&&◌, eq_iff,
}
use cross_format_documment.Base.Maps.{empty, put}
use cross_format_documment.Base.Result.{ok}
use cross_format_documment.Base.Text.{chars}
use cross_format_documment.Model.{null, str, Node, NodeType, CanonicalDocument}
use cross_format_documment.Redaction.Ancestors.{marked, IsKeys}
use cross_format_documment.Patch.Op.{Patch}
use cross_format_documment.Patch.Fields
use cross_format_documment.Patch.Execute.{Applied, apply, apply_one}
use cross_format_documment.Versions.Samples.{bare_env}
use cross_format_documment.Versions.Samples
use cross_format_documment.Replace.Matching.{
  Alphabet, Pattern, count_from, sub_from, substitute, same_code,
}
use cross_format_documment.Replace.Plan.{Replacement, FindReplaceRequest, plan_find_replace, op_of}
use cross_format_documment.Replace.Cuts.{Cuts, sub_from-Cuts}
use cross_format_documment.Replace.Safe.{redacted_node_stays}

-- The letters of ASCII, each the same as itself only.
abbrev letters : Alphabet
letters = record {
  is_word = λ c. leb 97 (code c) && leb (code c) 122;
  same_ignoring_case = same_code;
}

abbrev cat : FindReplaceRequest
cat = record { find = "cat"; replace = "horse"; match_case = true; whole_word = true }

abbrev cat_pattern : Pattern
cat_pattern = record { find = chars "cat"; match_case = true; whole_word = true }

whole_words_are_replaced :
    substitute letters cat_pattern "horse" "cat, concat cat" ≡ "horse, concat horse"
unfolding sub_from
whole_words_are_replaced = refl

sub_from-Cuts_example :
    Cuts letters cat_pattern
      (chars "horse")
      false
      (chars "cat, concat cat")
      (sub_from letters cat_pattern (chars "horse") 0 false (chars "cat, concat cat"))
      (count_from letters cat_pattern 0 false (chars "cat, concat cat"))
sub_from-Cuts_example =
    sub_from-Cuts letters cat_pattern (chars "horse") (chars "cat, concat cat") (omega arith)

abbrev run_node : String → String → Node
run_node id text = record {
  id = id;
  type = NodeType.run;
  parent_id = none;
  children = [];
  bbox = null;
  attrs = empty;
  tags = [];
  fields = put empty "text" (str text);
}

-- Two runs, of which the second is redacted.
abbrev two_runs : CanonicalDocument
two_runs = record (Samples.marked ("b" ∷ [])) {
  nodes = put (put empty "a" (run_node "a" "a cat")) "b" (run_node "b" "the cat");
}

two-IsKeys : IsKeys two_runs ("a" ∷ "b" ∷ [])
two-IsKeys i n h = ground (arith, eq_iff "a" i, eq_iff "b" i)

abbrev cat_plan : List Replacement × ℕ
cat_plan = (record { node_id = "a"; before = "a cat"; after = "a horse"; count = 1 } ∷ [], 1)

cat_planned :
    plan_find_replace letters 3 two_runs cat (run_node "a" "a cat" ∷ run_node "b" "the cat" ∷ [])
    ≡ ok cat_plan
unfolding plan_find_replace count_from sub_from
cat_planned = refl

abbrev cat_applied : Applied Node
cat_applied = record {
  doc = record two_runs {
    nodes = put two_runs.nodes "a" (record (run_node "a" "a cat") {
      fields = put (run_node "a" "a cat").fields "text" (str "a horse");
    });
  };
  inverse = Patch.set_text (some "a") (str "a cat") ∷ [];
  drawn = 0;
}

cat_applies : apply bare_env 0 two_runs (map op_of cat_plan.0) ≡ ok cat_applied
unfolding apply apply_one Fields.set_text
cat_applies = refl

redacted_node_stays_example : cat_applied.doc.nodes "b" ≡ two_runs.nodes "b"
redacted_node_stays_example =
    redacted_node_stays bare_env letters 3 two_runs cat ("a" ∷ "b" ∷ [])
      (run_node "a" "a cat" ∷ run_node "b" "the cat" ∷ []) "b" 0 cat_plan cat_applied two-IsKeys
      (omega arith) refl (marked "b" refl) cat_planned cat_applies
