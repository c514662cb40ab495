-- ===== src/Patch/Undo/Move.antt =====
-- A move to another parent is undone by the move back.
use cross_format_documment.Base.{
  ℕ, ◌≤◌, String, ◌==◌, eq_iff, eq_refl, neq_sym, Option, some, true, false, ◌≡◌, refl, sym, ap,
  fun_ext, arith, min,
}
use cross_format_documment.Base.Int.{ℤ, pos}
use cross_format_documment.Base.Lists.{
  length, contains, remove, index_of, insert_at, insert_at-remove, remove-insert_at,
  contains-insert_at, index_of-lt-length, length-remove,
}
use cross_format_documment.Base.Result.{ok}
use cross_format_documment.Model.{Node, NodeType, CanonicalDocument, is_a}
use cross_format_documment.Patch.Op.{Env, Patch}
use cross_format_documment.Patch.Graph.{write, with_nodes, set_children, set_parent, known}
use cross_format_documment.Patch.Subtree.{detach}
use cross_format_documment.Patch.Renumber.{renumber_if_table}
use cross_format_documment.Patch.Tree
use cross_format_documment.Patch.Tree.{move_position, attach_to, or_else}
use cross_format_documment.Patch.Execute.{apply_one}
use cross_format_documment.Patch.Undo.Meaning.{Undoes, Undoes-by}

-- A node under a parent, and another parent that does not list it; neither parent is a table, whose
-- rows would be numbered anew.
pub record Movable (doc : CanonicalDocument) (nid p q : String) (node from to : Node) : Type 0 where
  pub at_node : doc.nodes nid ≡ some node
  pub at_from : doc.nodes p ≡ some from
  pub at_to : doc.nodes q ≡ some to
  pub parent : node.parent_id ≡ some p
  pub p_id : (p == "") ≡ false
  pub q_id : (q == "") ≡ false
  pub p_ne_q : (p == q) ≡ false
  pub n_ne_p : (nid == p) ≡ false
  pub n_ne_q : (nid == q) ≡ false
  pub listed : contains nid from.children ≡ true
  pub once : contains nid (remove nid from.children) ≡ false
  pub unlisted : contains nid to.children ≡ false
  pub from_plain : is_a NodeType.table from ≡ false
  pub to_plain : is_a NodeType.table to ≡ false

abbrev pub left : String → Node → Node
left nid from = set_children from (remove nid from.children)

abbrev pub entered : String → Node → Option ℤ → Node
entered nid to index =
    set_children to (insert_at (move_position index (length to.children)) nid to.children)

-- The document after the move.
abbrev pub moved :
    CanonicalDocument → String → String → String → Node → Node → Node → Option ℤ → CanonicalDocument
moved doc nid p q node from to index =
    write (write (write doc p (left nid from)) q (entered nid to index)) nid
      (set_parent node (some q))

-- A parent that is no table is not numbered.
pub renumber_plain :
    (doc : CanonicalDocument) (p : String) (n : Node)
    → doc.nodes p ≡ some n
    → is_a NodeType.table n ≡ false
    → renumber_if_table doc (some p) ≡ doc
unfolding renumber_if_table
renumber_plain doc p n h plain = ground (arith, h, plain)

pub min_of_le : (a b : ℕ) → a ≤ b → min a b ≡ a
min_of_le a b h = omega arith

module _ (doc : CanonicalDocument) (nid p q : String) (node from to : Node)
    (m : Movable doc nid p q node from to) where
  detach-Movable :
      detach doc nid node ≡ (write doc p (left nid from), some (pos (index_of nid from.children)))
  unfolding detach
  detach-Movable = ground (arith, m.at_from, m.parent, m.p_id, m.listed)

  known-Movable : known (write doc p (left nid from)) (or_else (some q) node.parent_id) ≡ some q
  known-Movable = ground (arith, m.at_to, m.q_id, m.p_ne_q)

  attach-Movable :
      (index : Option ℤ)
      → attach_to (write doc p (left nid from)) (some q) nid index
        ≡ ok (moved doc nid p q node from to index)
  unfolding attach_to
  attach-Movable index =
      ground (arith, m.at_to, m.at_node, m.p_ne_q, neq_sym nid q m.n_ne_q, neq_sym nid p m.n_ne_p)

  renumber_to :
      (index : Option ℤ)
      → renumber_if_table (moved doc nid p q node from to index) (some q)
        ≡ moved doc nid p q node from to index
  renumber_to index =
      renumber_plain (moved doc nid p q node from to index) q (entered nid to index)
        (ground (arith, m.n_ne_q, eq_refl q)) m.to_plain

  renumber_from :
      (index : Option ℤ)
      → renumber_if_table (moved doc nid p q node from to index) (some p)
        ≡ moved doc nid p q node from to index
  renumber_from index =
      renumber_plain (moved doc nid p q node from to index) p (left nid from)
        (ground (arith, m.n_ne_p, eq_refl p, neq_sym p q m.p_ne_q)) m.from_plain

module _ {D : Type 0} (env : Env D) (doc : CanonicalDocument) (nid p q : String)
    (node from to : Node) (m : Movable doc nid p q node from to) where
  pub move-Movable :
      (k : ℕ) (index : Option ℤ)
      → apply_one env k doc (Patch.move_node (some nid) (some q) index)
        ≡ ok (record {
          doc = moved doc nid p q node from to index;
          inverse = Patch.move_node (some nid) (some p) (some (pos (index_of nid from.children)));
          drawn = k;
        })
  unfolding apply_one Tree.move_node
  move-Movable k index = rw (m.at_node) (
      rw (detach-Movable doc nid p q node from to m) (
        rw (known-Movable doc nid p q node from to m) (
          rw (attach-Movable doc nid p q node from to m index) (
            rw (renumber_to doc nid p q node from to m index)
              (rw (m.parent) (rw (renumber_from doc nid p q node from to m index)))))))

  -- The move back is a move of the same kind.
  Movable-back :
      (index : Option ℤ)
      → Movable
          (moved doc nid p q node from to index)
          nid
          q
          p
          (set_parent node (some q))
          (entered nid to index)
          (left nid from)
  Movable-back index = record {
    at_node = rw eq_refl;
    at_from = ground (arith, m.n_ne_q, eq_refl q);
    at_to = ground (arith, m.n_ne_p, eq_refl p, neq_sym p q m.p_ne_q);
    parent = refl;
    p_id = m.q_id;
    q_id = m.p_id;
    p_ne_q = neq_sym p q m.p_ne_q;
    n_ne_p = m.n_ne_q;
    n_ne_q = m.n_ne_p;
    listed = contains-insert_at (move_position index (length to.children)) nid to.children;
    once =
        rw (remove-insert_at (move_position index (length to.children)) nid to.children m.unlisted)
          m.unlisted;
    unlisted = m.once;
    from_plain = m.to_plain;
    to_plain = m.from_plain;
  }

  -- The children of both parents are as before.
  from_back : entered nid (left nid from) (some (pos (index_of nid from.children))) ≡ from
  from_back = ap (set_children from) (
      rw
        (min_of_le (index_of nid from.children) (length (remove nid from.children)) (
          omega (
            arith,
            index_of-lt-length nid from.children m.listed,
            length-remove nid from.children m.listed,
          )))
        (insert_at-remove nid from.children m.listed))

  to_back : (index : Option ℤ) → left nid (entered nid to index) ≡ to
  to_back index =
      ap (set_children to)
        (remove-insert_at (move_position index (length to.children)) nid to.children m.unlisted)

  node_back : set_parent node (some p) ≡ node
  node_back = ap (set_parent node) (sym m.parent)

  moved_back :
      (index : Option ℤ)
      → moved
          (moved doc nid p q node from to index)
          nid
          q
          p
          (set_parent node (some q))
          (entered nid to index)
          (left nid from)
          (some (pos (index_of nid from.children)))
        ≡ doc
  moved_back index = ap (with_nodes doc) (
      fun_ext λ j. rw (from_back) (
        rw (to_back index) (
          rw (node_back)
            (ground (arith, eq_iff nid j, eq_iff p j, eq_iff q j, m.at_node, m.at_from, m.at_to)))))

module _ {D : Type 0} (env : Env D) (doc : CanonicalDocument) (nid p q : String)
    (node from to : Node) (m : Movable doc nid p q node from to) where
  -- The move of a node to a parent that does not list it, neither parent a table, succeeds at every
  -- index, and the inverse that it returns gives the document back.
  pub move_node-Undoes :
      (k : ℕ) (index : Option ℤ) → Undoes env k doc (Patch.move_node (some nid) (some q) index)
  move_node-Undoes k index =
      let back = some (pos (index_of nid from.children)) in
      let there = moved doc nid p q node from to index in
      Undoes-by env k doc (Patch.move_node (some nid) (some q) index)
        (record { doc = there; inverse = Patch.move_node (some nid) (some p) back; drawn = k })
        (move-Movable env doc nid p q node from to m k index)
        λ k'. (
          record {
            doc =
                moved there nid q p (set_parent node (some q)) (entered nid to index)
                  (left nid from) back;
            inverse =
                Patch.move_node (some nid) (some q)
                  (some (pos (index_of nid (entered nid to index).children)));
            drawn = k';
          },
          move-Movable env there nid q p (set_parent node (some q)) (entered nid to index)
              (left nid from) (Movable-back env doc nid p q node from to m index) k' back,
          moved_back env doc nid p q node from to m index,
        )
