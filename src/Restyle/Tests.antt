-- ===== src/Restyle/Tests.antt =====
-- Two runs, one of them redacted, made bold.
use cross_format_documment.Base.{
  String, none, some, Bool, true, false, List, [], ◌∷◌, ◌≡◌, ◌⊎◌, refl,
}
use cross_format_documment.Base.Maps.{empty, put}
use cross_format_documment.Base.Result.{Result, ok, err, type_error}
use cross_format_documment.Model.{Value, null, flag, str, Node, NodeType, CanonicalDocument}
use cross_format_documment.Patch.Op.{Patch}
use cross_format_documment.Patch.Fields
use cross_format_documment.Patch.Graph.{write}
use cross_format_documment.Patch.Execute.{Applied, apply, apply_one}
use cross_format_documment.Versions.Samples.{bare_env}
use cross_format_documment.Versions.Samples
use cross_format_documment.Restyle.Build.{Scope, RestyleRequest, restyle_ops}
use cross_format_documment.Restyle.Keep.{IsFree, restyle_keeps_content}
use cross_format_documment.Restyle.Steps.{Kin}

-- Truth values are compared; others differ.
abbrev same_flag : Value → Value → Bool
same_flag (flag true) (flag true) = true
same_flag (flag false) (flag false) = true
same_flag v w = false

abbrev no_text : String → Value → Result Bool
no_text find v = err type_error

abbrev bare : String → NodeType → List String → Node
bare id type children = record {
  id = id;
  type = type;
  parent_id = none;
  children = children;
  bbox = null;
  attrs = empty;
  tags = [];
  fields = put empty "text" (str id);
}

abbrev two_runs : CanonicalDocument
two_runs = record (Samples.marked ("b" ∷ [])) {
  nodes =
      put
        (put (put empty "r" (bare "r" NodeType.root ("a" ∷ "b" ∷ []))) "a"
          (bare "a" NodeType.run []))
        "b" (bare "b" NodeType.run []);
}

abbrev bolder : RestyleRequest
bolder = record {
  scope = Scope.matching;
  find = some "a";
  style = record {
    bold = some true;
    italic = none;
    underline = none;
    font = none;
    size = none;
    color = none;
  };
}

abbrev bold_ops : List (Patch Node)
bold_ops = Patch.update_node (some "a") (("bold", flag true) ∷ []) ∷ []

one_is_found : restyle_ops same_flag no_text 9 two_runs bolder ≡ ok bold_ops
unfolding restyle_ops
one_is_found = refl

abbrev bolded : Applied Node
bolded = record {
  doc = write two_runs "a" (record (bare "a" NodeType.run []) {
    fields = put (put empty "text" (str "a")) "bold" (flag true);
  });
  inverse = Patch.update_node (some "a") (("bold", null) ∷ []) ∷ [];
  drawn = 0;
}

it_applies : apply bare_env 0 two_runs bold_ops ≡ ok bolded
unfolding apply apply_one Fields.update_node
it_applies = refl

restyle_keeps_content_example :
    (bolded.doc.nodes "a" ≡ two_runs.nodes "a")
    ⊎ (IsFree 9 two_runs "a" × Kin (two_runs.nodes "a") (bolded.doc.nodes "a"))
restyle_keeps_content_example =
    restyle_keeps_content bare_env same_flag no_text 9 0 two_runs bolder bold_ops bolded "a"
      one_is_found it_applies
