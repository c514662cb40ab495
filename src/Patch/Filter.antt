-- ===== src/Patch/Filter.antt =====
-- Which names `update_node` of `_apply_one` (backend/src/docos/services/semantic/orchestrator.py)
-- lets a payload set.
use cross_format_documment.Base.{
  ◌==◌, if◌then◌else◌, ℕ, String, some, true, false, List, [], ◌∷◌, ◌≡◌, refl, arith, text_eq,
  subst, Bool-cases, Option-cases, inl, inr, false≢true,
}
use cross_format_documment.Base.Lists.{contains, all_of, All}
use cross_format_documment.Base.Result.{ok}
use cross_format_documment.Model.{Value, Node, CanonicalDocument}
use cross_format_documment.Patch.Op.{Env, Patch}
use cross_format_documment.Patch.Fields
use cross_format_documment.Patch.Fields.{
  Step, allowed_items, set_attrs, values_before, updatable_node_fields,
}
use cross_format_documment.Patch.Graph.{write}
use cross_format_documment.Patch.Execute.{apply_one}

-- The fields that make a node part of the graph, and the other ones of every node that the code does
-- not set by name.
abbrev pub graph_names : List String
graph_names = "id" ∷ "type" ∷ "parent_id" ∷ "children" ∷ "bbox" ∷ "attrs" ∷ "tags" ∷ []

-- An item whose name is none of these.
abbrev pub Plain : String × Value → Type 0
Plain item = contains item.0 graph_names ≡ false

listed-plain :
    (allowed : List String) (k : String)
    → all_of (λ a. if contains a graph_names then false else true) allowed ≡ true
    → contains k allowed ≡ true
    → contains k graph_names ≡ false
listed-plain [] k h there = absurd (false≢true there)
listed-plain (a ∷ allowed) k h there = elim (Bool-cases (a == k)) [
  | inl same ↦ subst (λ x. contains x graph_names ≡ false) (text_eq a k same) (ground (arith, h))
  | inr other ↦ listed-plain allowed k (ground (arith, h)) (ground (arith, there, other))
]

allowed-Plain :
    (allowed : List String) (items : List (String × Value))
    → all_of (λ a. if contains a graph_names then false else true) allowed ≡ true
    → All Plain (allowed_items allowed items)
unfolding allowed_items
allowed-Plain allowed [] h = tt
allowed-Plain allowed ((k, v) ∷ items) h = elim (Bool-cases (contains k allowed)) [
  | inl there ↦
      rw (allowed_items, there) (listed-plain allowed k h there, allowed-Plain allowed items h)
  | inr missing ↦ rw (allowed_items, missing) (allowed-Plain allowed items h)
]

values_before-Plain :
    (n : Node) (items : List (String × Value)) → All Plain items → All Plain (values_before n items)
unfolding values_before
values_before-Plain n [] h = tt
values_before-Plain n ((k, v) ∷ items) (here, later) = (here, values_before-Plain n items later)

module _ {D : Type 0} (env : Env D) (k : ℕ) (doc : CanonicalDocument) where
  -- Whatever the payload, an update that succeeds sets attributes of the target only, and neither
  -- the names that it sets nor those that its inverse sets are id, type, parent_id, children, bbox,
  -- attrs or tags.
  pub update_node-Plain :
      (t : String) (payload : List (String × Value)) (step : Step D)
      → apply_one env k doc (Patch.update_node (some t) payload) ≡ ok step
      → (n : Node) × (doc.nodes t ≡ some n)
        × ((items : List (String × Value)) × (back : List (String × Value)) × All Plain items
            × All Plain back
            × (step.doc ≡ write doc t (set_attrs n items))
            × (step.inverse ≡ Patch.update_node (some t) back))
  unfolding apply_one Fields.update_node
  update_node-Plain t payload step h = elim (Option-cases (doc.nodes t)) [
    | inl gone ↦ absurd (cc (rw gone at h))
    | inr (n, known) ↦
        let items = allowed_items updatable_node_fields payload in
        let plain = allowed-Plain updatable_node_fields payload refl in
        (
          n,
          known,
          (
            items,
            values_before n items,
            plain,
            values_before-Plain n items plain,
            ground (arith, known),
            ground (arith, known),
          ),
        )
  ]
