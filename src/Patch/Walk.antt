-- ===== src/Patch/Walk.antt =====
-- The walk over a subtree: that it ends on a tree, that it runs for ever on a cycle, what a removal
-- takes away, and the move that makes a cycle.
use cross_format_documment.Base.{
  ℕ, zero, suc, ◌+◌, ◌≤◌, ◌<◌, String, ◌==◌, eq_iff, eq_refl, Option, none, some, Bool, true, false,
  List, [], ◌∷◌, ◌++◌, ◌≡◌, ◌⊎◌, inl, inr, refl, ◌∙◌, arith, if◌then◌else◌, text-cases,
  Option-cases, Bool-cases, ◌||◌,
}
use cross_format_documment.Base.Int.{ℤ, pos}
use cross_format_documment.Base.Lists.{contains, contains-insert_at, index_of, length}
use cross_format_documment.Base.Result.{ok, err, diverges, ◌>>=◌}
use cross_format_documment.Model.{Node, CanonicalDocument}
use cross_format_documment.Patch.Op.{Env, Patch}
use cross_format_documment.Patch.Fields.{Step}
use cross_format_documment.Patch.Tree.{move_position}
use cross_format_documment.Patch.Graph.{set_parent}
use cross_format_documment.Patch.Subtree.{walk_ids}
use cross_format_documment.Patch.Execute.{apply_one}
use cross_format_documment.Patch.Undo.Move.{Movable, moved, move-Movable, entered}

-- One round of the walk, by what the registry holds under the id on top.
pub walk_known :
    (fuel : ℕ) (doc : CanonicalDocument) (i : String) (stack : List String) (n : Node)
    → doc.nodes i ≡ some n
    → walk_ids (suc fuel) doc (i ∷ stack)
      ≡ (walk_ids fuel doc (n.children ++ stack) >>= λ out. ok (i ∷ out))
unfolding walk_ids
walk_known fuel doc i stack n h = rw (h, walk_ids)

walk_unknown :
    (fuel : ℕ) (doc : CanonicalDocument) (i : String) (stack : List String)
    → doc.nodes i ≡ none
    → walk_ids (suc fuel) doc (i ∷ stack) ≡ walk_ids fuel doc stack
unfolding walk_ids
walk_unknown fuel doc i stack h = rw (h, walk_ids)

-- The sum of the weights of the ids on a stack.
abbrev pub total : (String → ℕ) → List String → ℕ
total w [] = 0
total w (i ∷ is) = w i + total w is

total-append : (w : String → ℕ) (is js : List String) → total w (is ++ js) ≡ total w is + total w js
total-append w [] js = omega arith
total-append w (i ∷ is) js = omega (arith, total-append w is js)

-- A weight that falls from each node to its children: there is one exactly if no node is its own
-- descendant, the number of nodes in the subtree for instance.
pub record IsForest (doc : CanonicalDocument) (w : String → ℕ) : Type 0 where
  pub positive : (i : String) → 1 ≤ w i
  pub falls : (i : String) (n : Node) → doc.nodes i ≡ some n → total w n.children + 1 ≤ w i

module _ (doc : CanonicalDocument) (w : String → ℕ) (forest : IsForest doc w) where
  -- On a forest the walk ends, with as many rounds as the weight of its stack and one more.
  pub walk_ids-ends :
      (fuel : ℕ) (stack : List String)
      → total w stack < fuel
      → (out : List String) × (walk_ids fuel doc stack ≡ ok out)
  unfolding walk_ids
  walk_ids-ends zero stack h = absurd (omega arith)
  walk_ids-ends (suc fuel) [] h = ([], refl)
  walk_ids-ends (suc fuel) (i ∷ stack) h = elim (Option-cases (doc.nodes i)) [
    | inl unknown ↦
        let (out, e) = walk_ids-ends fuel stack (omega (arith, forest.positive i)) in
        (out, walk_unknown fuel doc i stack unknown ∙ e)
    | inr (n, known) ↦
        let (out, e) =
          walk_ids-ends fuel (n.children ++ stack)
            (omega (arith, forest.falls i n known, total-append w n.children stack)) in
        (i ∷ out, walk_known fuel doc i stack n known ∙ rw e)
  ]

-- Whether an id of a list is inside.
abbrev pub any_inside : (String → Bool) → List String → Bool
any_inside inside [] = false
any_inside inside (i ∷ is) = inside i || any_inside inside is

any_inside-append :
    (inside : String → Bool) (is js : List String)
    → (any_inside inside is ≡ true) ⊎ (any_inside inside js ≡ true)
    → any_inside inside (is ++ js) ≡ true
any_inside-append inside [] js (inl h) = cc
any_inside-append inside [] js (inr h) = h
any_inside-append inside (i ∷ is) js h = ground (arith, any_inside-append inside is js)

any_inside-contains :
    (inside : String → Bool) (i : String) (is : List String)
    → contains i is ≡ true
    → inside i ≡ true
    → any_inside inside is ≡ true
any_inside-contains inside i [] h within = cc
any_inside-contains inside i (j ∷ is) h within = elim (text-cases j i) [
  | inl same ↦ rw same (rw within)
  | inr other ↦ ground (arith, any_inside-contains inside i is (rw other at h) within)
]

-- Ids of a cycle: each is known, and a child of each is one of them.
abbrev pub IsLoop : CanonicalDocument → (String → Bool) → Type 0
IsLoop doc inside =
    (i : String)
    → inside i ≡ true
    → (n : Node) × (doc.nodes i ≡ some n) × (any_inside inside n.children ≡ true)

module _ (doc : CanonicalDocument) (inside : String → Bool) (loop : IsLoop doc inside) where
  -- A walk that has an id of a cycle on its stack does not end, however many rounds it is given.
  pub walk_ids-diverges :
      (fuel : ℕ) (stack : List String)
      → any_inside inside stack ≡ true
      → walk_ids fuel doc stack ≡ err diverges
  unfolding walk_ids
  walk_ids-diverges zero stack h = refl
  walk_ids-diverges (suc fuel) [] h = cc
  walk_ids-diverges (suc fuel) (i ∷ stack) h = elim (Bool-cases (inside i)) [
    | inl within ↦
        let (n, known, child) = loop i within in
        walk_known fuel doc i stack n known
        ∙ rw (
            walk_ids-diverges fuel (n.children ++ stack)
              (any_inside-append inside n.children stack (inl child)))
    | inr without ↦ elim (Option-cases (doc.nodes i)) [
      | inl unknown ↦
          walk_unknown fuel doc i stack unknown ∙ (walk_ids-diverges fuel stack (rw without at h))
      | inr (n, known) ↦
          walk_known fuel doc i stack n known
          ∙ rw (
              walk_ids-diverges fuel (n.children ++ stack)
                (any_inside-append inside n.children stack (inr (rw without at h))))
    ]
  ]

-- The ids of a node and of its child.
abbrev two_ids : String → String → String → Bool
two_ids a b i = if a == i then true else b == i

module _ {D : Type 0} (env : Env D) (doc : CanonicalDocument) (nid p q : String)
    (node from to : Node) (m : Movable doc nid p q node from to) where
  -- Where a node goes under its own child, the two are a cycle afterwards.
  moved-IsLoop :
      (index : Option ℤ)
      → contains q node.children ≡ true
      → IsLoop (moved doc nid p q node from to index) (two_ids nid q)
  moved-IsLoop index child i h = elim (text-cases nid i) [
    | inl is_node ↦ (
      set_parent node (some q),
      rw (← is_node) (rw eq_refl),
      any_inside-contains (two_ids nid q) q node.children child (ground (arith, eq_refl q)),
    )
    | inr other ↦
        let is_parent : q ≡ i = (eq_iff q i).0 (ground (arith, h, other)) in
        (
          entered nid to index,
          rw other (rw (← is_parent) (rw eq_refl)),
          any_inside-contains (two_ids nid q) nid (entered nid to index).children
              (contains-insert_at (move_position index (length to.children)) nid to.children)
              (ground (arith, eq_refl nid)),
        )
  ]

  -- Moving a node under its own child raises nothing, and no walk from the node ends afterwards,
  -- however many rounds it is given.
  pub move_under_child-diverges :
      (k fuel : ℕ) (index : Option ℤ)
      → contains q node.children ≡ true
      → (step : Step D) × (apply_one env k doc (Patch.move_node (some nid) (some q) index)
          ≡ ok step)
        × (walk_ids fuel step.doc (nid ∷ []) ≡ err diverges)
  move_under_child-diverges k fuel index child = (
    record {
      doc = moved doc nid p q node from to index;
      inverse = Patch.move_node (some nid) (some p) (some (pos (index_of nid from.children)));
      drawn = k;
    },
    move-Movable env doc nid p q node from to m k index,
    walk_ids-diverges (moved doc nid p q node from to index) (two_ids nid q)
        (moved-IsLoop index child) fuel (nid ∷ []) (ground (arith, eq_refl nid)),
  )
