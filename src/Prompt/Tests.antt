-- ===== src/Prompt/Tests.antt =====
-- Three operations from a model, one of them on a node that is not there.
use cross_format_documment.Base.{String, none, some, Option, true, false, List, [], ◌∷◌, ◌≡◌, refl}
use cross_format_documment.Base.Lists.{all_of}
use cross_format_documment.Base.Maps.{empty, put}
use cross_format_documment.Model.{Value, null, str, flag, Node, NodeType, CanonicalDocument}
use cross_format_documment.Patch.Op.{Patch}
use cross_format_documment.Prompt.Coerce.{RawOp, ToolCall, ops_from_tool_calls}
use cross_format_documment.Prompt.Safe.{is_safe, tool_calls_are_safe}

abbrev run : Node
run = record {
  id = "t";
  type = NodeType.run;
  parent_id = none;
  children = [];
  bbox = null;
  attrs = empty;
  tags = [];
  fields = put empty "text" (str "old");
}

abbrev one_run : CanonicalDocument
one_run = record {
  schema_version = "1.0";
  doc_id = "d";
  root_id = "t";
  nodes = put empty "t" run;
  meta = record {
    title = none;
    author = none;
    source_format = "docx";
    source_mime = "application/docx";
    created_at = 0;
    modified_at = 0;
    page_count = 1;
    custom = empty;
  };
  permissions = record {
    can_edit = true;
    can_export = true;
    can_copy = true;
    encrypted = false;
    password_protected = false;
  };
  redaction = record { redacted_node_ids = []; metadata_sanitized = false; pending = [] };
  accessibility = record {
    has_doc_title = false;
    tagged = false;
    images_missing_alt = [];
    reading_order_ok = false;
    score = 0;
  };
  signature = record {
    signed = false;
    signature_valid = none;
    ready_for_signing = false;
    signer = none;
    signed_at = none;
    digest = none;
  };
  content_hash = none;
}

abbrev asked : String → Option String → RawOp
asked op target = record {
  op = some op;
  target_id = target;
  text = some (str "new");
  formats = put empty "bold" (flag true);
  tags = [];
}

abbrev calls : List ToolCall
calls =
    record {
      name = some "emit_patch";
      ops =
          asked "set_text" (some "t")
          ∷ asked "redact" (some "gone")
          ∷ asked "set_table_cell" (some "t")
          ∷ asked "move_node" (some "t")
          ∷ asked "update_node" (some "t")
          ∷ [];
    }
    ∷ []

abbrev shown : Value → String
shown v = "new"

tool_calls_are_safe_example :
    all_of (is_safe one_run) (ops_from_tool_calls {D = Node} one_run shown calls) ≡ true
tool_calls_are_safe_example = tool_calls_are_safe Node one_run shown calls

two_are_left :
    ops_from_tool_calls {D = Node} one_run shown calls
    ≡ Patch.set_text (some "t") (str "new")
      ∷ Patch.update_node (some "t") (("bold", flag true) ∷ [])
      ∷ []
unfolding ops_from_tool_calls
two_are_left = refl
