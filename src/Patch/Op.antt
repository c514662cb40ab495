-- ===== src/Patch/Op.antt =====
-- model/patch.py: the operations, each with the payload keys that the executor reads or writes.
-- `D` is the type of a node dump, the dictionary that `model_dump` returns.
use cross_format_documment.Base.{ℕ, String, Bool, Option, List}
use cross_format_documment.Base.Int.{ℤ}
use cross_format_documment.Base.Maps.{Map}
use cross_format_documment.Model.{Value, Node}

-- What the executor takes from outside: pydantic's dump and validation of a node, the fresh id
-- with a prefix (uuid4; the number counts the draws), and the rounds that a walk over the node
-- graph may take.
pub record Env (D : Type 0) : Type 0 where
  pub dump : Node → D
  pub validate : D → Option Node
  pub new_node_id : String → ℕ → String
  pub rounds : ℕ

-- The payload of `add_node`. A `parent_id` key that is there may hold None.
pub record AddPayload (D : Type 0) : Type 0 where
  pub node : Option D
  pub nodes : List D
  pub parent_id : Option (Option String)
  pub index : Option ℤ

-- The payload of `set_table_cell`, with `str` applied to the text and `bool` to the header. The
-- executor writes `attrs` and never reads it.
pub record CellPayload : Type 0 where
  pub text : Option String
  pub header : Option Bool
  pub number_format : Option Value
  pub formula : Option Value
  pub attrs : Option (Map Value)

-- The payload of `insert_image`.
pub record ImagePayload : Type 0 where
  pub parent_id : Option String
  pub id : Option String
  pub blob_ref : Option String
  pub mime : Option String
  pub alt_text : Option String
  pub bbox : Value
  pub attrs : Map Value
  pub index : Option ℤ

-- The payload of `replace_image`, `set_image_attrs` and `set_page_attrs`: named fields, and the two
-- that every node has.
pub record AttrsPayload : Type 0 where
  pub fields : List (String × Value)
  pub bbox : Option Value
  pub attrs : Option (Map Value)

pub data Patch (D : Type 0) : Type 0 where
  set_text : Option String → Value → Patch D
  update_node : Option String → List (String × Value) → Patch D
  retag : Option String → List String → Patch D
  redact unredact remove_node : Option String → Patch D
  sanitize_metadata : List String → Patch D
  restore_metadata : List (String × Value) → Bool → Patch D
  add_node : Option String → AddPayload D → Patch D
  move_node duplicate_node duplicate_page : Option String → Option String → Option ℤ → Patch D
  insert_table_row : Option String → Option ℤ → List D → Option ℤ → List String → Patch D
  delete_table_row : Option String → Option String → Option ℤ → Patch D
  insert_table_col : Option String → Option ℤ → List (List D) → List String → Patch D
  delete_table_col : Option String → Option ℤ → List String → Patch D
  set_table_cell : Option String → CellPayload → Patch D
  insert_image : Option String → ImagePayload → Patch D
  replace_image set_image_attrs set_page_attrs : Option String → AttrsPayload → Patch D
  insert_link : Option String → Option Value → Option Value → Patch D
  set_list_attrs : Option String → Option Bool → Patch D
