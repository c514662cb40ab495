-- ===== src/Patch/Tests.antt =====
-- A small document, runs of the executor on it, and the theorems at it.
use cross_format_documment.Base.{
  ℕ, String, Option, none, some, true, false, List, [], ◌∷◌, ◌≡◌, refl, arith, eq_iff, ◌==◌,
  if◌then◌else◌,
}
use cross_format_documment.Base.Lists.{contains, All}
use cross_format_documment.Base.Maps.{Map, empty, put}
use cross_format_documment.Base.Result.{Result, ok, err, diverges}
use cross_format_documment.Model.{Value, null, str, opaque, Node, NodeType, CanonicalDocument}
use cross_format_documment.Patch.Op.{Env, Patch}
use cross_format_documment.Patch.Graph.{write, set_attr}
use cross_format_documment.Patch.Subtree.{walk_ids, subtree_ids}
use cross_format_documment.Patch.Fields
use cross_format_documment.Patch.Tree
use cross_format_documment.Patch.Fields.{Step, with_marks, set_attrs}
use cross_format_documment.Patch.Execute.{Applied, apply_one, apply, revert}
use cross_format_documment.Patch.Undo.Meaning.{Undoes}
use cross_format_documment.Patch.Undo.Exact.{text_set, redacted, ExactRun, done, next}
use cross_format_documment.Patch.Undo.Move.{Movable, move_node-Undoes}
use cross_format_documment.Patch.Undo.Remove.{Removable, remove_node-Undoes}
use cross_format_documment.Patch.Undo.{revert-apply}
use cross_format_documment.Patch.Frame.Fixed.{fixed}
use cross_format_documment.Patch.Frame.{apply_keeps_frame}
use cross_format_documment.Patch.Walk.{IsForest, walk_ids-ends, move_under_child-diverges}
use cross_format_documment.Patch.Filter.{Plain, update_node-Plain}
use cross_format_documment.Patch.Marks.{IsMarkedOnce, removed_mark_is_lost}

-- Dumps are the nodes themselves, and the fresh id is the prefix.
abbrev sample_env : Env Node
sample_env = record {
  dump = λ n. n;
  validate = λ n. some n;
  new_node_id = λ prefix k. prefix;
  rounds = 9;
}

abbrev plain_node : String → NodeType → Option String → List String → Map Value → Node
plain_node id type parent children fields = record {
  id = id;
  type = type;
  parent_id = parent;
  children = children;
  bbox = null;
  attrs = empty;
  tags = [];
  fields = fields;
}

-- A root "r" with two paragraphs, "p" with the run "t", and "q".
abbrev root_node : Node
root_node = plain_node "r" NodeType.root none ("p" ∷ "q" ∷ []) empty

abbrev p_node : Node
p_node = plain_node "p" NodeType.paragraph (some "r") ("t" ∷ []) empty

abbrev q_node : Node
q_node = plain_node "q" NodeType.paragraph (some "r") [] empty

abbrev t_node : Node
t_node = plain_node "t" NodeType.run (some "p") [] (put empty "text" (str "old"))

abbrev sample_nodes : Map Node
sample_nodes = put (put (put (put empty "r" root_node) "p" p_node) "q" q_node) "t" t_node

abbrev sample : List String → CanonicalDocument
sample marks = record {
  schema_version = "1.0";
  doc_id = "d";
  root_id = "r";
  nodes = sample_nodes;
  meta = record {
    title = none;
    author = none;
    source_format = "docx";
    source_mime = "application/docx";
    created_at = 0;
    modified_at = 0;
    page_count = 1;
    custom = put (put empty "author" (str "A")) "lang" (str "en");
  };
  permissions = record {
    can_edit = true;
    can_export = true;
    can_copy = true;
    encrypted = false;
    password_protected = false;
  };
  redaction = record { redacted_node_ids = marks; metadata_sanitized = false; pending = [] };
  accessibility = record {
    has_doc_title = false;
    tagged = false;
    images_missing_alt = [];
    reading_order_ok = false;
    score = 0;
  };
  signature = record {
    signed = false;
    signature_valid = none;
    ready_for_signing = false;
    signer = none;
    signed_at = none;
    digest = none;
  };
  content_hash = none;
}

abbrev doc : CanonicalDocument
doc = sample []

abbrev texted : Step Node
texted = record {
  doc = write doc "t" (set_attr t_node "text" (str "new"));
  inverse = Patch.set_text (some "t") (str "old");
  drawn = 0;
}

abbrev marked : Step Node
marked = record {
  doc = with_marks texted.doc ("p" ∷ []);
  inverse = Patch.unredact (some "p");
  drawn = 0;
}

abbrev edits : List (Patch Node)
edits = Patch.set_text (some "t") (str "new") ∷ Patch.redact (some "p") ∷ []

edits-ExactRun : ExactRun sample_env 0 doc edits
unfolding apply_one Fields.set_text Fields.redact
edits-ExactRun =
    next texted (text_set "t" (str "new") t_node (str "old") refl refl) refl
      (next marked (redacted "p" refl) refl done)

revert-apply_example :
    (a : Applied Node) × (apply sample_env 0 doc edits ≡ ok a)
    × (revert sample_env 5 a.doc a.inverse ≡ ok doc)
revert-apply_example = revert-apply sample_env 5 edits-ExactRun

p-Removable : Removable sample_env doc "p" "r" p_node root_node ("t" ∷ []) (t_node ∷ [])
unfolding subtree_ids
p-Removable = record {
  at_node = refl;
  own_id = refl;
  at_parent = refl;
  child = refl;
  p_id = refl;
  listed = refl;
  once = refl;
  plain = refl;
  walked = refl;
  apart = refl;
  keyed = (refl, refl, (refl, refl, tt));
  unmarked = (refl, (refl, tt));
  reads = (refl, (refl, tt));
}

remove_node-Undoes_example : Undoes sample_env 0 doc (Patch.remove_node (some "p"))
remove_node-Undoes_example =
    remove_node-Undoes sample_env doc "p" "r" p_node root_node ("t" ∷ []) (t_node ∷ []) p-Removable
      0

t-Movable : Movable doc "t" "p" "q" t_node p_node q_node
t-Movable = record {
  at_node = refl;
  at_from = refl;
  at_to = refl;
  parent = refl;
  p_id = refl;
  q_id = refl;
  p_ne_q = refl;
  n_ne_p = refl;
  n_ne_q = refl;
  listed = refl;
  once = refl;
  unlisted = refl;
  from_plain = refl;
  to_plain = refl;
}

move_node-Undoes_example : Undoes sample_env 0 doc (Patch.move_node (some "t") (some "q") none)
move_node-Undoes_example =
    move_node-Undoes sample_env doc "t" "p" "q" t_node p_node q_node t-Movable 0 none

abbrev weight : String → ℕ
weight i = if i == "r" then 4 else if i == "p" then 2 else 1

doc-IsForest : IsForest doc weight
doc-IsForest = record {
  positive = λ i. ground arith;
  falls = λ i n h.
      ground
        (arith, eq_iff "t" i, eq_iff "q" i, eq_iff "p" i, eq_iff "r" i, eq_iff i "r", eq_iff i "p");
}

walk_ids-ends_example : (out : List String) × (walk_ids 5 doc ("r" ∷ []) ≡ ok out)
walk_ids-ends_example = walk_ids-ends doc weight doc-IsForest 5 ("r" ∷ []) (omega arith)

p-Movable : Movable doc "p" "r" "t" p_node root_node t_node
p-Movable = record {
  at_node = refl;
  at_from = refl;
  at_to = refl;
  parent = refl;
  p_id = refl;
  q_id = refl;
  p_ne_q = refl;
  n_ne_p = refl;
  n_ne_q = refl;
  listed = refl;
  once = refl;
  unlisted = refl;
  from_plain = refl;
  to_plain = refl;
}

move_under_child-diverges_example :
    (step : Step Node) × (apply_one sample_env 0 doc (Patch.move_node (some "p") (some "t") none)
      ≡ ok step)
    × (walk_ids 100 step.doc ("p" ∷ []) ≡ err diverges)
move_under_child-diverges_example =
    move_under_child-diverges sample_env doc "p" "r" "t" p_node root_node t_node p-Movable 0 100
      none refl

-- The document with a redacted paragraph, the removal of that, and the inverse.
abbrev step_of : Result (Step Node) → Step Node
step_of (ok s) = s
step_of (err e) = texted

abbrev gone : Step Node
gone = step_of (apply_one sample_env 0 (sample ("p" ∷ [])) (Patch.remove_node (some "p")))

abbrev back : Step Node
back = step_of (apply_one sample_env 0 gone.doc gone.inverse)

gone-made : apply_one sample_env 0 (sample ("p" ∷ [])) (Patch.remove_node (some "p")) ≡ ok gone
unfolding apply_one Tree.remove_node
gone-made = refl

back-made : apply_one sample_env 0 gone.doc gone.inverse ≡ ok back
unfolding apply_one Tree.remove_node Tree.add_node
back-made = refl

p-IsMarkedOnce : IsMarkedOnce ("p" ∷ [])
p-IsMarkedOnce = record { once = λ i. ground arith }

removed_mark_is_lost_example : contains "p" back.doc.redaction.redacted_node_ids ≡ false
removed_mark_is_lost_example =
    removed_mark_is_lost sample_env 0 0 (sample ("p" ∷ [])) "p" gone back p-IsMarkedOnce gone-made
      back-made

-- What the edits leave, recorded with their inverses.
abbrev edits_applied : Applied Node
edits_applied = record {
  doc = marked.doc;
  inverse = marked.inverse ∷ texted.inverse ∷ [];
  drawn = 0;
}

edits-apply : apply sample_env 0 doc edits ≡ ok edits_applied
unfolding apply apply_one Fields.set_text Fields.redact
edits-apply = refl

apply_keeps_frame_example : fixed edits_applied.doc ≡ fixed doc
apply_keeps_frame_example = apply_keeps_frame sample_env 0 doc edits edits_applied edits-apply

-- An update that also names the children: only the text is set.
abbrev sneaky : List (String × Value)
sneaky = ("children", opaque true 0) ∷ ("text", str "new") ∷ []

abbrev updated : Step Node
updated = record {
  doc = write doc "t" (set_attrs t_node (("text", str "new") ∷ []));
  inverse = Patch.update_node (some "t") (("text", str "old") ∷ []);
  drawn = 0;
}

updated_by_update_node :
    apply_one sample_env 0 doc (Patch.update_node (some "t") sneaky) ≡ ok updated
unfolding apply_one Fields.update_node
updated_by_update_node = refl

update_node-Plain_example :
    (n : Node) × (doc.nodes "t" ≡ some n)
    × ((items : List (String × Value)) × (back : List (String × Value)) × All Plain items
        × All Plain back
        × (updated.doc ≡ write doc "t" (set_attrs n items))
        × (updated.inverse ≡ Patch.update_node (some "t") back))
update_node-Plain_example =
    update_node-Plain sample_env 0 doc "t" sneaky updated updated_by_update_node
