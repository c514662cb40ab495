-- ===== src/Restyle/Keep.antt =====
-- What a restyle leaves of a document: all of it but the style of runs that are not redacted.
use cross_format_documment.Base.{
  ℕ, String, Option, none, some, Bool, true, false, List, [], ◌∷◌, ◌≡◌, ◌⊎◌, refl, sym, ◌∙◌,
  Bool-cases, inl, inr, subst,
}
use cross_format_documment.Base.Lists.{All}
use cross_format_documment.Base.Result.{Result, ok, ◌>>=◌, >>=-eq-ok, ok-injective}
use cross_format_documment.Model.{Value, Node, NodeType, CanonicalDocument, is_a}
use cross_format_documment.Redaction.{is_redacted}
use cross_format_documment.Patch.Op.{Env, Patch}
use cross_format_documment.Patch.Execute.{Applied, apply}
use cross_format_documment.Versions.Edits.{is_nil}
use cross_format_documment.Diff.Blocks.{walk}
use cross_format_documment.Restyle.Build.{
  Scope, RestyleRequest, payload, in_scope, is_other, with_op, restyle_run, restyle_nodes,
  lacks_find, restyle_ops,
}
use cross_format_documment.Restyle.Steps.{payload-IsStyle, StyleOp, styles, Kin, StyleOp-All}

-- The node is not redacted.
abbrev pub IsFree : ℕ → CanonicalDocument → String → Type 0
IsFree rounds doc j = is_redacted rounds doc (some j) ≡ some false

module _ (same_value : Value → Value → Bool) (in_other : String → Value → Result Bool) (rounds : ℕ)
    (doc : CanonicalDocument) (scope : Scope) (find : Option String) (items : List (String × Value))
    {D : Type 0} where
  run-StyleOps :
      (node : Node) (o : Option Bool) (later : Result (List (Patch D))) (ops : List (Patch D))
      → is_redacted rounds doc (some node.id) ≡ o
      → ((rest : List (Patch D)) → later ≡ ok rest → All (StyleOp items (IsFree rounds doc)) rest)
      → restyle_run same_value in_other rounds doc scope find items node o later ≡ ok ops
      → All (StyleOp items (IsFree rounds doc)) ops
  unfolding restyle_run
  run-StyleOps node none later ops e rests h = absurd (cc h)
  run-StyleOps node (some true) later ops e rests h = rests ops h
  run-StyleOps node (some false) later ops e rests h =
      let (within, found, more) =
        >>=-eq-ok (in_scope same_value in_other rounds doc scope find node)
          (λ within. later >>= λ ops.
            ok (with_op same_value in_other rounds doc scope find items node within ops))
          h in
      let (rest, e', sum) =
        >>=-eq-ok later
          (λ ops. ok (with_op same_value in_other rounds doc scope find items node within ops))
          more in
      subst (All (StyleOp items (IsFree rounds doc))) (ok-injective sum)
        (with_op-StyleOps within rest (rests rest e'))
    where
      with_op-StyleOps :
          (within : Bool) (rest : List (Patch D))
          → All (StyleOp items (IsFree rounds doc)) rest
          → All
              (StyleOp items (IsFree rounds doc))
              (with_op same_value in_other rounds doc scope find items node within rest)
      with_op-StyleOps false rest all = all
      with_op-StyleOps true rest all =
          elim (Bool-cases (is_other same_value in_other rounds doc items node)) [
            | inl other ↦ rw other (styles node.id e, all)
            | inr same ↦ rw same all
          ]

  nodes-StyleOps :
      (nodes : List Node) (ops : List (Patch D))
      → restyle_nodes same_value in_other rounds doc scope find items nodes ≡ ok ops
      → All (StyleOp items (IsFree rounds doc)) ops
  unfolding restyle_nodes
  nodes-StyleOps [] ops h = subst (All (StyleOp items (IsFree rounds doc))) (ok-injective h) tt
  nodes-StyleOps (node ∷ nodes) ops h = elim (Bool-cases (is_a NodeType.run node)) [
    | inl is_run ↦
        run-StyleOps node (is_redacted rounds doc (some node.id))
          (restyle_nodes same_value in_other rounds doc scope find items nodes) ops refl
          (λ rest e. nodes-StyleOps nodes rest e) (rw is_run at h)
    | inr other ↦ nodes-StyleOps nodes ops (rw other at h)
  ]

restyle_ops-StyleOps :
    {D : Type 0} (same_value : Value → Value → Bool) (in_other : String → Value → Result Bool)
    (rounds : ℕ) (doc : CanonicalDocument) (request : RestyleRequest) (ops : List (Patch D))
    → restyle_ops same_value in_other rounds doc request ≡ ok ops
    → All (StyleOp (payload request.style) (IsFree rounds doc)) ops
unfolding restyle_ops
restyle_ops-StyleOps same_value in_other rounds doc request ops h =
    elim (Bool-cases (is_nil (payload request.style))) [
      | inl empty ↦ absurd (cc (rw empty at h))
      | inr some_style ↦ elim (Bool-cases (lacks_find request.scope request.find)) [
        | inl lacks ↦ absurd (cc (rw lacks at (rw some_style at h)))
        | inr has_find ↦
            let (nodes, _, e) =
              >>=-eq-ok (walk rounds doc (doc.root_id ∷ []))
                (λ nodes.
                  restyle_nodes same_value in_other rounds doc request.scope request.find
                    (payload request.style) nodes)
                (rw has_find at (rw some_style at h)) in
            nodes-StyleOps same_value in_other rounds doc request.scope request.find
              (payload request.style) nodes ops e
      ]
    ]

-- Every entry of the registry is after a restyle as it was, or it is a node that is not redacted, and
-- other than before in its style at most.
pub restyle_keeps_content :
    {D : Type 0} (env : Env D) (same_value : Value → Value → Bool)
    (in_other : String → Value → Result Bool) (rounds k : ℕ) (doc : CanonicalDocument)
    (request : RestyleRequest) (ops : List (Patch D)) (done : Applied D) (i : String)
    → restyle_ops same_value in_other rounds doc request ≡ ok ops
    → apply env k doc ops ≡ ok done
    → (done.doc.nodes i ≡ doc.nodes i)
      ⊎ (IsFree rounds doc i × Kin (doc.nodes i) (done.doc.nodes i))
unfolding apply
restyle_keeps_content env same_value in_other rounds k doc request ops done i h ran =
    let (kin, stays) =
      StyleOp-All env (payload request.style) (IsFree rounds doc) (payload-IsStyle request.style) k
        doc [] ops done i (restyle_ops-StyleOps same_value in_other rounds doc request ops h) ran in
    by_answer (is_redacted rounds doc (some i)) refl kin stays
  where
    by_answer :
        (o : Option Bool)
        → is_redacted rounds doc (some i) ≡ o
        → Kin (doc.nodes i) (done.doc.nodes i)
        → ((IsFree rounds doc i → ⊥) → done.doc.nodes i ≡ doc.nodes i)
        → (done.doc.nodes i ≡ doc.nodes i)
          ⊎ (IsFree rounds doc i × Kin (doc.nodes i) (done.doc.nodes i))
    by_answer none e kin stays = inl (stays (λ free. absurd (cc (sym e ∙ free))))
    by_answer (some true) e kin stays = inl (stays (λ free. absurd (cc (sym e ∙ free))))
    by_answer (some false) e kin stays = inr (e, kin)
