-- ===== src/Patch/Graph.antt =====
-- The helpers of the executor that read and write nodes and edges.
use cross_format_documment.Base.{ℕ, min, String, ◌==◌, Option, none, some, List, if◌then◌else◌}
use cross_format_documment.Base.Int.{ℤ, pos, negsuc}
use cross_format_documment.Base.Lists.{length, contains, remove, insert_at}
use cross_format_documment.Base.Maps.{Map, has, put}
use cross_format_documment.Base.Result.{Result, ok, err, key_error, or_raise, ◌>>=◌}
use cross_format_documment.Model.{Value, Node, CanonicalDocument}

-- `doc.nodes[id]`, which raises KeyError
abbrev pub node_at : CanonicalDocument → Option String → Result Node
node_at doc none = err key_error
node_at doc (some id) = or_raise (doc.nodes id) key_error

-- the id behind `if id and ...`: an empty text counts as no id
abbrev pub given : Option String → Option String
given none = none
given (some id) = if id == "" then none else some id

-- `if id and id in doc.nodes`
abbrev pub known : CanonicalDocument → Option String → Option String
known doc id = elim (given id) [ none ↦ none | some p ↦ if has doc.nodes p then some p else none ]

abbrev pub with_nodes : CanonicalDocument → Map Node → CanonicalDocument
with_nodes doc m = record doc { nodes = m }

-- The registry holds the new state of the node under the key by which it was read.
abbrev pub write : CanonicalDocument → String → Node → CanonicalDocument
write doc key n = with_nodes doc (put doc.nodes key n)

-- `object.__setattr__(node, name, v)`
abbrev pub set_attr : Node → String → Value → Node
set_attr n name v = record n { fields = put n.fields name v }

abbrev pub set_children : Node → List String → Node
set_children n ids = record n { children = ids }

abbrev pub set_parent : Node → Option String → Node
set_parent n p = record n { parent_id = p }

-- `_clamp_index`
unfoldable pub clamp_index : Option ℤ → ℕ → ℕ
clamp_index none count = count
clamp_index (some (pos i)) count = min i count
clamp_index (some (negsuc i)) count = 0

-- the `remove` under `if child_id in parent.children`
abbrev pub without : String → List String → List String
without id ids = if contains id ids then remove id ids else ids

-- `_insert_child`. The two nodes may be one object, so the child is read again.
unfoldable pub insert_child :
    CanonicalDocument → String → String → Option ℤ → Result CanonicalDocument
unfolding clamp_index
insert_child doc parent_id child_id index = do
  parent ← or_raise (doc.nodes parent_id) key_error
  child ← or_raise (doc.nodes child_id) key_error
  let rest = without child_id parent.children
  let linked =
      write doc parent_id
        (set_children parent (insert_at (clamp_index index (length rest)) child_id rest))
  child ← or_raise (linked.nodes child_id) key_error
  ok (write linked child_id (set_parent child (some parent_id)))
