-- ===== src/Patch/Frame/Fixed.antt =====
-- The fields of a document that stay, and the helpers that leave them.
use cross_format_documment.Base.{
  ℕ, suc, max, String, Option, none, some, List, [], ◌∷◌, ◌≡◌, refl, ◌∙◌, arith,
}
use cross_format_documment.Base.Int.{ℤ}
use cross_format_documment.Base.Lists.{length}
use cross_format_documment.Base.Maps.{del}
use cross_format_documment.Base.Result.{Result, ok}
use cross_format_documment.Model.{
  Node, Value, CanonicalDocument, Permissions, AccessibilityState, SignatureState,
}
use cross_format_documment.Patch.Graph.{insert_child, write, without}
use cross_format_documment.Patch.Fields.{Step}
use cross_format_documment.Patch.Subtree.{detach, register_all, pop_all, link_root, restore_nodes}
use cross_format_documment.Patch.Renumber.{
  set_attr_at, number_cells, number_rows, renumber_table, renumber_if_table, row_cells, number,
}
use cross_format_documment.Patch.Tree

-- The fields of a document that stay.
pub record Fixed : Type 0 where
  pub schema_version : String
  pub doc_id : String
  pub root_id : String
  pub permissions : Permissions
  pub accessibility : AccessibilityState
  pub signature : SignatureState
  pub content_hash : Option String

abbrev pub fixed : CanonicalDocument → Fixed
fixed doc = record {
  schema_version = doc.schema_version;
  doc_id = doc.doc_id;
  root_id = doc.root_id;
  permissions = doc.permissions;
  accessibility = doc.accessibility;
  signature = doc.signature;
  content_hash = doc.content_hash;
}

pub fixed-set_attr_at :
    (doc : CanonicalDocument) (key name : String) (v : Value)
    → fixed (set_attr_at doc key name v) ≡ fixed doc
fixed-set_attr_at doc key name v = ground arith

-- The helpers that write into the registry or drop marks.
pub fixed-insert_child :
    (doc : CanonicalDocument) (p c : String) (i : Option ℤ) (d : CanonicalDocument)
    → insert_child doc p c i ≡ ok d
    → fixed d ≡ fixed doc
unfolding insert_child
fixed-insert_child doc p c i d h = ground arith

pub fixed-link_root :
    (doc : CanonicalDocument) (o : Option String) (c : String) (i : Option ℤ)
    (d : CanonicalDocument)
    → link_root doc o c i ≡ ok d
    → fixed d ≡ fixed doc
unfolding link_root
fixed-link_root doc none c i d h = ground arith
fixed-link_root doc (some p) c i d h = fixed-insert_child doc p c i d h

pub fixed-register_all :
    (doc : CanonicalDocument) (ns : List Node) → fixed (register_all doc ns) ≡ fixed doc
unfolding register_all
fixed-register_all doc [] = refl
fixed-register_all doc (n ∷ ns) = fixed-register_all (write doc n.id n) ns

pub fixed-pop_all :
    (doc : CanonicalDocument) (ids : List String) → fixed (pop_all doc ids) ≡ fixed doc
unfolding pop_all
fixed-pop_all doc [] = refl
fixed-pop_all doc (i ∷ is) =
    fixed-pop_all
      (record doc {
        nodes = del doc.nodes i;
        redaction = record (doc.redaction) {
          redacted_node_ids = without i doc.redaction.redacted_node_ids;
        };
      })
      is

pub fixed-detach :
    (doc : CanonicalDocument) (nid : String) (n : Node) → fixed (detach doc nid n).0 ≡ fixed doc
unfolding detach
fixed-detach doc nid n = ground arith

pub fixed-attach_to :
    (doc : CanonicalDocument) (o : Option String) (c : String) (i : Option ℤ)
    (d : CanonicalDocument)
    → Tree.attach_to doc o c i ≡ ok d
    → fixed d ≡ fixed doc
unfolding Tree.attach_to
fixed-attach_to doc o c i d h = ground arith

pub fixed-number_cells :
    (ri ci : ℕ) (doc : CanonicalDocument) (cells : List (String × Node))
    → fixed (number_cells ri ci doc cells) ≡ fixed doc
unfolding number_cells
fixed-number_cells ri ci doc [] = refl
fixed-number_cells ri ci doc ((cid, c) ∷ cells) =
    let rowed = set_attr_at doc cid "row" (number ri) in
    fixed-number_cells ri (suc ci) (set_attr_at rowed cid "col" (number ci)) cells
    ∙ fixed-set_attr_at rowed cid "col" (number ci)
    ∙ fixed-set_attr_at doc cid "row" (number ri)

pub fixed-number_rows :
    (ri most : ℕ) (doc : CanonicalDocument) (rows : List (String × Node))
    → fixed (number_rows ri most doc rows).0 ≡ fixed doc
unfolding number_rows
fixed-number_rows ri most doc [] = refl
fixed-number_rows ri most doc ((rid, row) ∷ rows) =
    let rowed = set_attr_at doc rid "row" (number ri) in
    fixed-number_rows (suc ri) (max most (length (row_cells doc row)))
      (number_cells ri 0 rowed (row_cells doc row)) rows
    ∙ fixed-number_cells ri 0 rowed (row_cells doc row)
    ∙ fixed-set_attr_at doc rid "row" (number ri)

pub fixed-renumber_table :
    (doc : CanonicalDocument) (tid : String) → fixed (renumber_table doc tid) ≡ fixed doc
unfolding renumber_table
fixed-renumber_table doc tid = grind (arith, fixed-number_rows)

pub fixed-renumber :
    (doc : CanonicalDocument) (o : Option String) → fixed (renumber_if_table doc o) ≡ fixed doc
unfolding renumber_if_table
fixed-renumber doc o = grind (arith, fixed-renumber_table)

pub fixed-restore_nodes :
    (doc : CanonicalDocument) (ns : List Node) (o : Option String) (i : Option ℤ)
    (r : CanonicalDocument × String)
    → restore_nodes doc ns o i ≡ ok r
    → fixed r.0 ≡ fixed doc
unfolding restore_nodes
fixed-restore_nodes doc [] o i r h = cc
fixed-restore_nodes doc (n ∷ ns) o i r h = grind (arith, fixed-link_root, fixed-register_all)

-- The document that the operation leaves has the fields that stay.
abbrev pub Same : {D : Type 0} → CanonicalDocument → Result (Step D) → Type 0
Same doc m = (s : Step _) → m ≡ ok s → fixed s.doc ≡ fixed doc
