-- ===== src/Batches/Achieved.antt =====
-- Each operation of a remediation keeps what was asked for before it, and achieves what it is for.
use cross_format_documment.Base.{
  ℕ, String, eq_refl, some, true, List, [], ◌∷◌, ◌≡◌, refl, sym, ◌∙◌, arith, Option-cases, inl, inr,
  subst,
}
use cross_format_documment.Base.Int.{ℤ, pos}
use cross_format_documment.Base.Lists.{contains, All}
use cross_format_documment.Base.Result.{Result, ok, >>=-eq-ok, ok-injective}
use cross_format_documment.Model.{Value, int, str, truthy, Node, CanonicalDocument}
use cross_format_documment.Patch.Op.{Env, Patch}
use cross_format_documment.Patch.Fields
use cross_format_documment.Patch.Fields.{Step, allowed_items, set_attrs}
use cross_format_documment.Patch.Graph.{write}
use cross_format_documment.Patch.Execute.{Applied, apply_one, apply_all}
use cross_format_documment.Batches.Remediate.{alt_placeholder}
use cross_format_documment.Batches.Follows.{
  Keeps, Follows, Fix, retags, orders, describes, Fixed, tagged, ordered, described, Follows-refl,
  Follows-trans, Follows-write, Fix-Follows, Fixed-Follows,
}

module _ (oi : Value → Result ℤ) {D : Type 0} (env : Env D) where
  written : (a : CanonicalDocument) (i : String) (n : Node) → (write a i n).nodes i ≡ some n
  written a i n = rw eq_refl refl

  -- What one operation leaves, where its node is there.
  retag-doc :
      (k : ℕ) (a : CanonicalDocument) (i : String) (tags : List String) (n : Node) (step : Step D)
      → a.nodes i ≡ some n
      → apply_one env k a (Patch.retag (some i) tags) ≡ ok step
      → step.doc ≡ write a i (record n { tags = tags })
  unfolding apply_one Fields.retag
  retag-doc k a i tags n step known h = ground arith

  update-doc :
      (k : ℕ) (a : CanonicalDocument) (i name : String) (v : Value) (step : Step D)
      → contains name Fields.updatable_node_fields ≡ true
      → apply_one env k a (Patch.update_node (some i) ((name, v) ∷ [])) ≡ ok step
      → (n : Node) × (a.nodes i ≡ some n) × (step.doc ≡ write a i (set_attrs n ((name, v) ∷ [])))
  unfolding apply_one Fields.update_node allowed_items
  update-doc k a i name v step allowed h = elim (Option-cases (a.nodes i)) [
    | inl gone ↦ absurd (cc (rw gone at h))
    | inr (n, known) ↦ (n, known, ground (arith, known, allowed))
  ]

  -- An operation of a remediation keeps what was asked before, and achieves what it is for.
  Fix-step :
      (k : ℕ) (a : CanonicalDocument) (op : Patch D) (step : Step D)
      → Fix oi a op
      → apply_one env k a op ≡ ok step
      → Follows oi a step.doc × Fixed oi step.doc op
  unfolding truthy
  Fix-step k a op step (retags i t n tags known e c) h =
      let m : Node = record n { tags = tags } in
      let keeps : Keeps oi n m = record {
        type = refl;
        id = refl;
        children = refl;
        level = refl;
        tagged = λ u e' _. subst (λ x. contains x tags ≡ true) (ok-injective (sym e ∙ e')) c;
        ordered = λ p. p;
        described = λ p. p;
      } in
      subst (λ d. Follows oi a d × Fixed oi d op) (sym (retag-doc k a i tags n step known h))
        (Follows-write oi a i n m known keeps, tagged i t m tags (written a i m) e c)
  Fix-step k a op step (orders i p) h =
      let (n, known, e) = update-doc k a i "reading_order" (int (pos p)) step refl h in
      let m = set_attrs n (("reading_order", int (pos p)) ∷ []) in
      let keeps : Keeps oi n m = record {
        type = refl;
        id = refl;
        children = refl;
        level = refl;
        tagged = λ u _ c. c;
        ordered = λ _. refl;
        described = λ q. q;
      } in
      subst (λ d. Follows oi a d × Fixed oi d op) (sym e)
        (Follows-write oi a i n m known keeps, ordered i p m (written a i m) refl)
  Fix-step k a op step (describes i) h =
      let (n, known, e) = update-doc k a i "alt_text" (str alt_placeholder) step refl h in
      let m = set_attrs n (("alt_text", str alt_placeholder) ∷ []) in
      let keeps : Keeps oi n m = record {
        type = refl;
        id = refl;
        children = refl;
        level = refl;
        tagged = λ u _ c. c;
        ordered = λ q. q;
        described = λ _. refl;
      } in
      subst (λ d. Follows oi a d × Fixed oi d op) (sym e)
        (Follows-write oi a i n m known keeps, described i m (written a i m) refl)

  pub Fix-All :
      (k : ℕ) (a : CanonicalDocument) (inverse ops : List (Patch D)) (done : Applied D)
      → All (Fix oi a) ops
      → apply_all env k a inverse ops ≡ ok done
      → Follows oi a done.doc × All (Fixed oi done.doc) ops
  unfolding apply_all
  Fix-All k a inverse [] done fixes h =
      subst (λ (x : Applied D). Follows oi a x.doc × Unit {0}) (ok-injective h)
        (Follows-refl oi a, tt)
  Fix-All k a inverse (op ∷ ops) done (fix, fixes) h =
      let (step, first, rest) =
        >>=-eq-ok (apply_one env k a op)
          (λ s. apply_all env s.drawn s.doc (s.inverse ∷ inverse) ops) h in
      let (f, own) = Fix-step k a op step fix first in
      let (g, others) =
        Fix-All step.drawn step.doc (step.inverse ∷ inverse) ops done (still a step.doc ops f fixes)
          rest in
      (
        Follows-trans oi a step.doc done.doc f g,
        (Fixed-Follows oi step.doc done.doc op g own, others),
      )
    where
      still :
          (a b : CanonicalDocument) (ops : List (Patch D))
          → Follows oi a b
          → All (Fix oi a) ops
          → All (Fix oi b) ops
      still a b [] f fixes = tt
      still a b (op ∷ ops) f (fix, fixes) = (Fix-Follows oi a b op f fix, still a b ops f fixes)
