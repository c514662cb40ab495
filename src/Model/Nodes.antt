-- ===== src/Model/Nodes.antt =====
-- nodes.py: the node taxonomy.
use cross_format_documment.Base.{ℕ, String, Bool, Option, List, eqb}
use cross_format_documment.Base.Maps.{Map, get_or}
use cross_format_documment.Model.Values.{Value}

-- `NodeType`
pub data NodeType : Type 0 where
  root page paragraph run heading list list_item : NodeType
  table table_row table_cell image field comment annotation : NodeType
  metadata_block footnote_reference footnote unsupported : NodeType

abbrev type_code : NodeType → ℕ
type_code NodeType.root = 0
type_code NodeType.page = 1
type_code NodeType.paragraph = 2
type_code NodeType.run = 3
type_code NodeType.heading = 4
type_code NodeType.list = 5
type_code NodeType.list_item = 6
type_code NodeType.table = 7
type_code NodeType.table_row = 8
type_code NodeType.table_cell = 9
type_code NodeType.image = 10
type_code NodeType.field = 11
type_code NodeType.comment = 12
type_code NodeType.annotation = 13
type_code NodeType.metadata_block = 14
type_code NodeType.footnote_reference = 15
type_code NodeType.footnote = 16
type_code NodeType.unsupported = 17

-- The test `type == t`.
abbrev pub same_type : NodeType → NodeType → Bool
same_type s t = eqb (type_code s) (type_code t)

-- The type's name, as `new_node_id` takes it.
abbrev pub type_name : NodeType → String
type_name NodeType.root = "root"
type_name NodeType.page = "page"
type_name NodeType.paragraph = "paragraph"
type_name NodeType.run = "run"
type_name NodeType.heading = "heading"
type_name NodeType.list = "list"
type_name NodeType.list_item = "list_item"
type_name NodeType.table = "table"
type_name NodeType.table_row = "table_row"
type_name NodeType.table_cell = "table_cell"
type_name NodeType.image = "image"
type_name NodeType.field = "field"
type_name NodeType.comment = "comment"
type_name NodeType.annotation = "annotation"
type_name NodeType.metadata_block = "metadata_block"
type_name NodeType.footnote_reference = "footnote_reference"
type_name NodeType.footnote = "footnote"
type_name NodeType.unsupported = "unsupported"

-- A node of any class. The fields of `BaseNode` are fields here, but `reading_order`, which is set
-- by name; it and the fields of the classes below `BaseNode` are the entries of `fields`, under
-- their names (an instance's `__dict__`).
pub record Node : Type 0 where
  pub id : String
  pub type : NodeType
  pub parent_id : Option String
  pub children : List String
  pub bbox : Value
  pub attrs : Map Value
  pub tags : List String
  pub fields : Map Value

-- `getattr(node, name, default)`
abbrev pub attr : Node → String → Value → Value
attr n name default = get_or n.fields name default

-- `node.type == t`
abbrev pub is_a : NodeType → Node → Bool
is_a t n = same_type n.type t
