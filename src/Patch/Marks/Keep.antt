-- ===== src/Patch/Marks/Keep.antt =====
-- The operations that build or number the graph leave the redaction state alone.
use cross_format_documment.Base.{
  ℕ, suc, max, String, Option, none, some, List, [], ◌∷◌, ◌≡◌, refl, ◌∙◌, arith, Option-cases, inl,
  inr,
}
use cross_format_documment.Base.Int.{ℤ}
use cross_format_documment.Base.Lists.{length}
use cross_format_documment.Base.Result.{ok, key_error, validation_error, or_raise, ◌>>=◌, >>=-eq-ok}
use cross_format_documment.Model.{Node, Value, CanonicalDocument}
use cross_format_documment.Patch.Op.{Env, Patch, AddPayload}
use cross_format_documment.Patch.Graph.{known, given, insert_child, write}
use cross_format_documment.Patch.Subtree.{
  detach, register_all, link_root, restore_nodes, restore_subtree, validate_all,
}
use cross_format_documment.Patch.Renumber.{
  set_attr_at, number_cells, number_rows, renumber_table, renumber_if_table, row_cells, table_rows,
  number,
}
use cross_format_documment.Patch.Fields.{Step}
use cross_format_documment.Patch.Tree
use cross_format_documment.Patch.Execute.{apply_one}

redaction-set_attr_at :
    (doc : CanonicalDocument) (key name : String) (v : Value)
    → (set_attr_at doc key name v).redaction ≡ doc.redaction
redaction-set_attr_at doc key name v = ground arith

redaction-number_cells :
    (ri ci : ℕ) (doc : CanonicalDocument) (cells : List (String × Node))
    → (number_cells ri ci doc cells).redaction ≡ doc.redaction
unfolding number_cells
redaction-number_cells ri ci doc [] = refl
redaction-number_cells ri ci doc ((cid, c) ∷ cells) =
    let rowed = set_attr_at doc cid "row" (number ri) in
    redaction-number_cells ri (suc ci) (set_attr_at rowed cid "col" (number ci)) cells
    ∙ redaction-set_attr_at rowed cid "col" (number ci)
    ∙ redaction-set_attr_at doc cid "row" (number ri)

redaction-number_rows :
    (ri most : ℕ) (doc : CanonicalDocument) (rows : List (String × Node))
    → (number_rows ri most doc rows).0.redaction ≡ doc.redaction
unfolding number_rows
redaction-number_rows ri most doc [] = refl
redaction-number_rows ri most doc ((rid, row) ∷ rows) =
    let rowed = set_attr_at doc rid "row" (number ri) in
    redaction-number_rows (suc ri) (max most (length (row_cells doc row)))
      (number_cells ri 0 rowed (row_cells doc row)) rows
    ∙ redaction-number_cells ri 0 rowed (row_cells doc row)
    ∙ redaction-set_attr_at doc rid "row" (number ri)

redaction-renumber_table :
    (doc : CanonicalDocument) (tid : String) → (renumber_table doc tid).redaction ≡ doc.redaction
unfolding renumber_table
redaction-renumber_table doc tid = elim (Option-cases (doc.nodes tid)) [
  | inl unknown ↦ ground (arith, unknown)
  | inr (table, known) ↦ ground (arith, known, redaction-number_rows 0 0 doc (table_rows doc table))
]

pub redaction-renumber :
    (doc : CanonicalDocument) (o : Option String)
    → (renumber_if_table doc o).redaction ≡ doc.redaction
unfolding renumber_if_table
redaction-renumber doc none = refl
redaction-renumber doc (some p) = ground (arith, redaction-renumber_table doc p)

redaction-insert_child :
    (doc : CanonicalDocument) (p c : String) (i : Option ℤ) (d : CanonicalDocument)
    → insert_child doc p c i ≡ ok d
    → d.redaction ≡ doc.redaction
unfolding insert_child
redaction-insert_child doc p c i d h = ground arith

pub redaction-register_all :
    (doc : CanonicalDocument) (ns : List Node) → (register_all doc ns).redaction ≡ doc.redaction
unfolding register_all
redaction-register_all doc [] = refl
redaction-register_all doc (n ∷ ns) = redaction-register_all (write doc n.id n) ns

redaction-link_root :
    (doc : CanonicalDocument) (o : Option String) (c : String) (i : Option ℤ)
    (d : CanonicalDocument)
    → link_root doc o c i ≡ ok d
    → d.redaction ≡ doc.redaction
unfolding link_root
redaction-link_root doc none c i d h = ground arith
redaction-link_root doc (some p) c i d h = redaction-insert_child doc p c i d h

redaction-restore_nodes :
    (doc : CanonicalDocument) (ns : List Node) (o : Option String) (i : Option ℤ)
    (r : CanonicalDocument × String)
    → restore_nodes doc ns o i ≡ ok r
    → r.0.redaction ≡ doc.redaction
unfolding restore_nodes
redaction-restore_nodes doc [] o i r h = cc
redaction-restore_nodes doc (n ∷ ns) o i r h =
    let (linked, e, same) =
      >>=-eq-ok (link_root (register_all doc (n ∷ ns)) (given o) n.id i) (λ d. ok (d, n.id)) h in
    ground (
      arith,
      same,
      redaction-link_root (register_all doc (n ∷ ns)) (given o) n.id i linked e,
      redaction-register_all doc (n ∷ ns),
    )

pub redaction-detach :
    (doc : CanonicalDocument) (nid : String) (n : Node)
    → (detach doc nid n).0.redaction ≡ doc.redaction
unfolding detach
redaction-detach doc nid n = ground arith

module _ {D : Type 0} (env : Env D) where
  redaction-restore_subtree :
      (doc : CanonicalDocument) (xs : List D) (o : Option String) (i : Option ℤ)
      (r : CanonicalDocument × String)
      → restore_subtree env doc xs o i ≡ ok r
      → r.0.redaction ≡ doc.redaction
  unfolding restore_subtree
  redaction-restore_subtree doc xs o i r h =
      let (nodes, e, rest) = >>=-eq-ok (validate_all env xs) (λ ns. restore_nodes doc ns o i) h in
      redaction-restore_nodes doc nodes o i r rest

  redaction-add_one :
      (k : ℕ) (doc : CanonicalDocument) (n : Node) (p : AddPayload D) (s : Step D)
      → Tree.add_one env k doc n p ≡ ok s
      → s.doc.redaction ≡ doc.redaction
  unfolding Tree.add_one
  redaction-add_one k doc n p s h =
      let placed = write doc n.id n in
      let parent_id : Option String = elim p.parent_id [ none ↦ n.parent_id | some q ↦ q ] in
      let (linked, e, same) =
        >>=-eq-ok (link_root placed (known placed parent_id) n.id p.index)
          (λ d. ok (record {
            doc = renumber_if_table d (known placed parent_id);
            inverse = Patch.remove_node (some n.id);
            drawn = k;
          }))
          h in
      ground (
        arith,
        same,
        redaction-renumber linked (known placed parent_id),
        redaction-link_root placed (known placed parent_id) n.id p.index linked e,
      )

  redaction-add_dumps :
      (k : ℕ) (doc : CanonicalDocument) (xs : List D) (p : AddPayload D) (s : Step D)
      → Tree.add_dumps env k doc xs p ≡ ok s
      → s.doc.redaction ≡ doc.redaction
  unfolding Tree.add_dumps
  redaction-add_dumps k doc [] p s h =
      let (dumped, e, found) =
        >>=-eq-ok (or_raise p.node key_error)
          (λ d. or_raise (env.validate d) validation_error >>= λ n. Tree.add_one env k doc n p) h in
      let (n, read, added) =
        >>=-eq-ok (or_raise (env.validate dumped) validation_error)
          (λ n. Tree.add_one env k doc n p) found in
      redaction-add_one k doc n p s added
  redaction-add_dumps k doc (x ∷ xs) p s h =
      let parent_id = Tree.parent_of env k doc p in
      let (restored, e, same) =
        >>=-eq-ok (restore_subtree env doc (x ∷ xs) parent_id p.index)
          (λ r. ok (record {
            doc = renumber_if_table r.0 parent_id;
            inverse = Patch.remove_node (some r.1);
            drawn = k;
          }))
          h in
      ground (
        arith,
        same,
        redaction-renumber restored.0 parent_id,
        redaction-restore_subtree doc (x ∷ xs) parent_id p.index restored e,
      )

  -- Putting nodes back marks none of them.
  pub redaction-add_node :
      (k : ℕ) (doc : CanonicalDocument) (t : Option String) (p : AddPayload D) (s : Step D)
      → apply_one env k doc (Patch.add_node t p) ≡ ok s
      → s.doc.redaction ≡ doc.redaction
  unfolding apply_one Tree.add_node
  redaction-add_node k doc t p s h = redaction-add_dumps k doc p.nodes p s h
