-- ===== src/Patch/Marks.antt =====
-- What becomes of the redaction marks when a marked node is removed and put back.
mod Keep
use mathlib.Core.List.{head?}
use cross_format_documment.Base.{
  ℕ, zero, suc, max, String, ◌==◌, eq_iff, eq_refl, ◌++◌, Option, none, some, Bool, true, false,
  List, [], ◌∷◌, ◌≡◌, refl, subst, sym, ◌∙◌, ap, arith, if◌then◌else◌, Bool-cases, Option-cases,
  inl, inr, text-cases,
}
use cross_format_documment.Base.Int.{ℤ}
use cross_format_documment.Base.Lists.{contains, remove, length}
use cross_format_documment.Base.Maps.{del, has}
use cross_format_documment.Base.Result.{
  Result, ok, err, key_error, validation_error, or_raise, ◌>>=◌, >>=-eq-ok,
}
use cross_format_documment.Model.{Node, NodeType, Value, CanonicalDocument, RedactionState, is_a}
use cross_format_documment.Patch.Op.{Env, Patch, AddPayload}
use cross_format_documment.Patch.Graph.{known, given, insert_child, write}
use cross_format_documment.Patch.Subtree.{
  Place, walk_ids, detach, pop_all, register_all, link_root, restore_nodes, restore_subtree,
  remove_subtree, validate_all, subtree_ids, dump_subtree,
}
use cross_format_documment.Patch.Renumber.{
  set_attr_at, number_cells, number_rows, renumber_table, renumber_if_table, row_cells, table_rows,
  number,
}
use cross_format_documment.Patch.Fields.{Step}
use cross_format_documment.Patch.Tree
use cross_format_documment.Patch.Walk.{walk_known}
use cross_format_documment.Patch.Marks.Keep.{
  redaction-detach, redaction-add_node, redaction-renumber,
}
use cross_format_documment.Patch.Execute.{apply_one}

abbrev marks : CanonicalDocument → List String
marks doc = doc.redaction.redacted_node_ids

remove_comm : (i j : String) (xs : List String) → remove j (remove i xs) ≡ remove i (remove j xs)
remove_comm i j [] = refl
remove_comm i j (x ∷ xs) = ground (arith, eq_iff x i, eq_iff x j, eq_iff i j, remove_comm i j xs)

contains-remove :
    (i j : String) (xs : List String) → contains j xs ≡ false → contains j (remove i xs) ≡ false
contains-remove i j [] h = refl
contains-remove i j (x ∷ xs) h = ground (arith, contains-remove i j xs)

-- No id is marked twice.
pub record IsMarkedOnce (xs : List String) : Type 0 where
  pub once : (i : String) → contains i (remove i xs) ≡ false

drop_mark : String → List String → List String
drop_mark i xs = if contains i xs then remove i xs else xs

drop_mark-gone :
    (i : String) (xs : List String) → IsMarkedOnce xs → contains i (drop_mark i xs) ≡ false
unfolding drop_mark
drop_mark-gone i xs m = ground (arith, m.once i)

drop_mark-IsMarkedOnce :
    (i : String) (xs : List String) → IsMarkedOnce xs → IsMarkedOnce (drop_mark i xs)
unfolding drop_mark
drop_mark-IsMarkedOnce i xs m = elim (Bool-cases (contains i xs)) [
  | inl yes_marked ↦ rw yes_marked (record {
    once = λ j. rw (remove_comm i j xs) (contains-remove i j (remove j xs) (m.once j));
  })
  | inr unmarked ↦ rw unmarked m
]

drop_mark_other :
    (i j : String) (xs : List String) → contains j xs ≡ false → contains j (drop_mark i xs) ≡ false
unfolding drop_mark
drop_mark_other i j xs h = ground (arith, contains-remove i j xs)

abbrev popped_one : CanonicalDocument → String → CanonicalDocument
popped_one doc i = record doc {
  nodes = del doc.nodes i;
  redaction = record (doc.redaction) { redacted_node_ids = drop_mark i (marks doc) };
}

pop_all_keeps_unmarked :
    (doc : CanonicalDocument) (ids : List String) (j : String)
    → contains j (marks doc) ≡ false
    → contains j (marks (pop_all doc ids)) ≡ false
unfolding pop_all drop_mark
pop_all_keeps_unmarked doc [] j h = h
pop_all_keeps_unmarked doc (i ∷ is) j h =
    pop_all_keeps_unmarked (popped_one doc i) is j (drop_mark_other i j (marks doc) h)

-- Every id that is popped loses its mark.
pop_all-gone :
    (doc : CanonicalDocument) (ids : List String) (j : String)
    → IsMarkedOnce (marks doc)
    → contains j ids ≡ true
    → contains j (marks (pop_all doc ids)) ≡ false
unfolding pop_all drop_mark
pop_all-gone doc [] j m h = cc
pop_all-gone doc (i ∷ is) j m h = elim (text-cases i j) [
  | inl same ↦
      pop_all_keeps_unmarked (popped_one doc i) is j (rw (← same) (drop_mark-gone i (marks doc) m))
  | inr other ↦
      pop_all-gone (popped_one doc i) is j (drop_mark-IsMarkedOnce i (marks doc) m) (rw other at h)
]

or_raise-eq-ok {ℓ κ} :
    {A : Type ℓ} {B : Type κ} (o : Option A) (f : A → Result B) {b : B}
    → (or_raise o key_error >>= f) ≡ ok b
    → (a : A) × (o ≡ some a) × (f a ≡ ok b)
or_raise-eq-ok none f h = cc
or_raise-eq-ok (some a) f h = (a, refl, h)

detach-known :
    (doc : CanonicalDocument) (nid : String) (n : Node)
    → doc.nodes nid ≡ some n
    → has (detach doc nid n).0.nodes nid ≡ true
unfolding detach
detach-known doc nid n h = ground arith

-- A walk begins with the id on top of its stack, if that is known.
walk_ids-first :
    (fuel : ℕ) (doc : CanonicalDocument) (i : String) (out : List String)
    → has doc.nodes i ≡ true
    → walk_ids fuel doc (i ∷ []) ≡ ok out
    → contains i out ≡ true
unfolding walk_ids
walk_ids-first zero doc i out h e = cc
walk_ids-first (suc fuel) doc i out h e = elim (Option-cases (doc.nodes i)) [
  | inl unknown ↦ ground (arith, unknown)
  | inr (n, known) ↦
      let (rest, _, same) =
        >>=-eq-ok (walk_ids fuel doc (n.children ++ [])) (λ rest. ok (i ∷ rest))
          (sym (walk_known fuel doc i [] n known) ∙ e) in
      let listed : i ∷ rest ≡ out = cc in rw (← listed) (rw eq_refl)
]

-- The inverse of a removal.
abbrev undo_remove : {D : Type 0} → String → CanonicalDocument × List D × Place → Patch D
undo_remove nid r = Patch.add_node (some nid) (record {
  node = head? r.1;
  nodes = r.1;
  parent_id = some (r.2).parent_id;
  index = (r.2).index;
})

module _ {D : Type 0} (env : Env D) where
  -- What a removal is made of: the ids of the walk, which begins with the removed node, and the
  -- document without them, its table numbered anew.
  remove_subtree-inverts :
      (doc : CanonicalDocument) (nid : String) (r : CanonicalDocument × List D × Place)
      → remove_subtree env doc nid ≡ ok r
      → (ids : List String) × (d : CanonicalDocument) × (d.redaction ≡ doc.redaction)
        × (contains nid ids ≡ true)
        × (r.0 ≡ pop_all d ids)
  unfolding remove_subtree
  remove_subtree-inverts doc nid r h =
      let (node, known, h1) = or_raise-eq-ok (doc.nodes nid) (λ n. removed_from n) h in
      let d = (detach doc nid node).0 in
      let (dumps, _, h2) =
        >>=-eq-ok (dump_subtree env d nid)
          (λ x. subtree_ids env d nid >>= λ ids. result node d x ids) h1 in
      let (ids, walked, h3) =
        >>=-eq-ok (subtree_ids env d nid) (λ ids. result node d dumps ids) h2 in
      (
        ids,
        d,
        redaction-detach doc nid node,
        walk_ids-first env.rounds d nid ids (detach-known doc nid node known) walked,
        cc h3,
      )
    where
      result :
          Node
          → CanonicalDocument
          → List D
          → List String
          → Result (CanonicalDocument × List D × Place)
      result node d x ids =
          ok (
            pop_all d ids,
            x,
            record { parent_id = node.parent_id; index = (detach doc nid node).1 },
          )

      removed_from : Node → Result (CanonicalDocument × List D × Place)
      removed_from node = dump_subtree env (detach doc nid node).0 nid >>= λ x.
          subtree_ids env (detach doc nid node).0 nid >>= λ ids.
          result node (detach doc nid node).0 x ids

  remove_node-inverts :
      (k : ℕ) (doc : CanonicalDocument) (nid : String) (step : Step D)
      → apply_one env k doc (Patch.remove_node (some nid)) ≡ ok step
      → (r : CanonicalDocument × List D × Place) × (remove_subtree env doc nid ≡ ok r)
        × (step.inverse ≡ undo_remove nid r)
        × (step.doc ≡ renumber_if_table r.0 (r.2).parent_id)
  unfolding apply_one Tree.remove_node
  remove_node-inverts k doc nid step e =
      let (r, taken, same) =
        >>=-eq-ok (remove_subtree env doc nid)
          (λ r. ok (record {
            doc = renumber_if_table r.0 (r.2).parent_id;
            inverse = undo_remove nid r;
            drawn = k;
          }))
          e in
      (r, taken, cc same, cc same)

  -- Where the marks name no id twice: after the removal of a node, and after the inverse of that,
  -- the node has no redaction mark, whether it had one or not.
  pub removed_mark_is_lost :
      (k k' : ℕ) (doc : CanonicalDocument) (nid : String) (step again : Step D)
      → IsMarkedOnce doc.redaction.redacted_node_ids
      → apply_one env k doc (Patch.remove_node (some nid)) ≡ ok step
      → apply_one env k' step.doc step.inverse ≡ ok again
      → contains nid again.doc.redaction.redacted_node_ids ≡ false
  removed_mark_is_lost k k' doc nid step again m e back =
      let (r, taken, inverse, stepped) = remove_node-inverts k doc nid step e in
      let (ids, d, kept, first, popped) = remove_subtree-inverts doc nid r taken in
      let payload : AddPayload D = record {
        node = head? r.1;
        nodes = r.1;
        parent_id = some (r.2).parent_id;
        index = (r.2).index;
      } in
      let same : again.doc.redaction ≡ (pop_all d ids).redaction =
        redaction-add_node env k' step.doc (some nid) payload again (rw inverse at back)
        ∙ ap (λ (x : CanonicalDocument). x.redaction) stepped
        ∙ redaction-renumber r.0 (r.2).parent_id
        ∙ ap (λ (x : CanonicalDocument). x.redaction) popped in
      rw same (
        pop_all-gone d ids nid
          (subst (λ (x : RedactionState). IsMarkedOnce x.redacted_node_ids) (sym kept) m) first)
