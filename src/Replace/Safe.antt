-- ===== src/Replace/Safe.antt =====
-- A replacement leaves redacted texts alone.
use cross_format_documment.Base.{
  ℕ, ◌<◌, String, ◌==◌, Option, none, some, Bool, true, false, List, [], ◌∷◌, map, ◌≡◌, refl, sym,
  ◌∙◌, ap, subst, arith, eqb, false≢true, Bool-cases, text-cases, inl, inr,
}
use cross_format_documment.Base.Lists.{length, All}
use cross_format_documment.Base.Result.{Result, ok, ◌>>=◌, >>=-eq-ok, ok-injective}
use cross_format_documment.Model.{Node, NodeType, CanonicalDocument, is_a}
use cross_format_documment.Redaction.{is_redacted}
use cross_format_documment.Redaction.Ancestors.{Covered, IsKeys, is_redacted-decides}
use cross_format_documment.Patch.Op.{Env, Patch}
use cross_format_documment.Patch.Fields
use cross_format_documment.Patch.Fields.{Step}
use cross_format_documment.Patch.Execute.{Applied, apply_one, apply_all, apply}
use cross_format_documment.Replace.Matching.{Alphabet, count_matches}
use cross_format_documment.Replace.Plan.{
  Replacement, FindReplaceRequest, pattern_of, text_of, with_run, plan_run, plan_nodes,
  plan_find_replace, op_of,
}

-- No replacement is one of the node.
abbrev pub Spares : String → List Replacement → Type 0
Spares i rs = All (λ r. (r.node_id == i) ≡ false) rs

module _ (alphabet : Alphabet) (rounds : ℕ) (doc : CanonicalDocument) (body : FindReplaceRequest)
    (i : String) where
  with_run-Spares :
      (node : Node) (text : String) (rest : List Replacement × ℕ)
      → (node.id == i) ≡ false
      → Spares i rest.0
      → Spares i (with_run alphabet rounds doc body node text rest).0
  with_run-Spares node text rest apart h =
      elim (Bool-cases (eqb (count_matches alphabet (pattern_of body) text) 0)) [
        | inl none_found ↦ rw none_found h
        | inr some_found ↦ rw some_found (apart, h)
      ]

  plan_run-Spares :
      (node : Node) (redacted : Option Bool) (later : Result (List Replacement × ℕ))
      (planned : List Replacement × ℕ)
      → (redacted ≡ some false → (node.id == i) ≡ false)
      → ((rest : List Replacement × ℕ) → later ≡ ok rest → Spares i rest.0)
      → plan_run alphabet rounds doc body node redacted later ≡ ok planned
      → Spares i planned.0
  unfolding plan_run
  plan_run-Spares node none later planned apart spared h = cc
  plan_run-Spares node (some true) later planned apart spared h = spared planned h
  plan_run-Spares node (some false) later planned apart spared h =
      let (text, _, h1) =
        >>=-eq-ok (text_of node)
          (λ text. later >>= λ rest. ok (with_run alphabet rounds doc body node text rest)) h in
      let (rest, e, same) =
        >>=-eq-ok later (λ rest. ok (with_run alphabet rounds doc body node text rest)) h1 in
      subst (λ (x : List Replacement × ℕ). Spares i x.0) (ok-injective same)
        (with_run-Spares node text rest (apart refl) (spared rest e))

  plan_nodes-Spares :
      (nodes : List Node) (planned : List Replacement × ℕ)
      → ((node : Node)
          → is_redacted rounds doc (some node.id) ≡ some false
          → (node.id == i) ≡ false)
      → plan_nodes alphabet rounds doc body nodes ≡ ok planned
      → Spares i planned.0
  unfolding plan_nodes
  plan_nodes-Spares [] planned apart h =
      subst (λ (x : List Replacement × ℕ). Spares i x.0) (ok-injective h) tt
  plan_nodes-Spares (node ∷ nodes) planned apart h = elim (Bool-cases (is_a NodeType.run node)) [
    | inl run ↦
        plan_run-Spares node (is_redacted rounds doc (some node.id))
          (plan_nodes alphabet rounds doc body nodes) planned (apart node)
          (λ rest e. plan_nodes-Spares nodes rest apart e) (rw run at h)
    | inr other ↦ plan_nodes-Spares nodes planned apart (rw other at h)
  ]

module _ {D : Type 0} (env : Env D) (i : String) where
  set_text_other :
      (k : ℕ) (doc : CanonicalDocument) (r : Replacement) (step : Step D)
      → (r.node_id == i) ≡ false
      → apply_one env k doc (op_of r) ≡ ok step
      → step.doc.nodes i ≡ doc.nodes i
  unfolding apply_one Fields.set_text
  set_text_other k doc r step apart h = ground arith

  -- Operations of a plan that spares the node leave it as it is.
  apply_all-Spares :
      (k : ℕ) (doc : CanonicalDocument) (inverse : List (Patch D)) (rs : List Replacement)
      (done : Applied D)
      → Spares i rs
      → apply_all env k doc inverse (map op_of rs) ≡ ok done
      → done.doc.nodes i ≡ doc.nodes i
  unfolding apply_all
  apply_all-Spares k doc inverse [] done spared h =
      ap (λ (a : Applied D). a.doc.nodes i) (sym (ok-injective h))
  apply_all-Spares k doc inverse (r ∷ rs) done (apart, spared) h =
      let (step, e, rest) =
        >>=-eq-ok (apply_one env k doc (op_of r))
          (λ step. apply_all env step.drawn step.doc (step.inverse ∷ inverse) (map op_of rs)) h in
      apply_all-Spares step.drawn step.doc (step.inverse ∷ inverse) rs done spared rest
      ∙ set_text_other k doc r step apart e

-- With more rounds than the registry has keys: a node that is marked, or under one that is, has after
-- a replacement what it had before.
pub redacted_node_stays :
    {D : Type 0} (env : Env D) (alphabet : Alphabet) (rounds : ℕ) (doc : CanonicalDocument)
    (body : FindReplaceRequest) (ks : List String) (nodes : List Node) (i : String) (k : ℕ)
    (planned : List Replacement × ℕ) (done : Applied D)
    → IsKeys doc ks
    → length ks < rounds
    → (i == "") ≡ false
    → Covered doc i
    → plan_find_replace alphabet rounds doc body nodes ≡ ok planned
    → apply env k doc (map op_of planned.0) ≡ ok done
    → done.doc.nodes i ≡ doc.nodes i
unfolding plan_find_replace apply
redacted_node_stays env alphabet rounds doc body ks nodes i k planned done keys enough named covered
      p a =
    apply_all-Spares env i k doc [] planned.0 done spared a
  where
    apart :
        (node : Node) → is_redacted rounds doc (some node.id) ≡ some false → (node.id == i) ≡ false
    apart node free = elim (text-cases node.id i) [
      | inl same ↦
          let (b, found, decides) = is_redacted-decides doc ks rounds i keys enough named in
          let one : some b ≡ some false = sym found ∙ rw same at free in
          let e : b ≡ false = cc in absurd (false≢true (sym e ∙ decides.1 covered))
      | inr other ↦ other
    ]

    spared : Spares i planned.0
    spared = elim (Bool-cases (body.find == "")) [
      | inl nothing ↦
          subst (λ (x : List Replacement × ℕ). Spares i x.0) (ok-injective (rw nothing at p)) tt
      | inr something ↦
          plan_nodes-Spares alphabet rounds doc body i nodes planned apart (rw something at p)
    ]
