-- ===== src/Patch/Undo.antt =====
-- The undoing of a whole patch, from that of its operations.
pub mod Meaning
pub mod Fields
pub mod Move
pub mod Pops
pub mod Remove
pub mod Exact
use cross_format_documment.Base.{ℕ, List, [], ◌∷◌, ◌≡◌, refl, ◌∙◌}
use cross_format_documment.Base.Result.{ok}
use cross_format_documment.Model.{CanonicalDocument}
use cross_format_documment.Patch.Op.{Env, Patch}
use cross_format_documment.Patch.Execute.{Applied, apply_all, apply, revert}
use Exact.{ExactRun, done, next, Exact-Reverses}

module _ {D : Type 0} (env : Env D) where
  -- With an accumulator of inverses: what is left to revert is what stood there before.
  revert-apply_all :
      {k : ℕ} {doc : CanonicalDocument} {ops : List (Patch D)} (inverse : List (Patch D))
      → ExactRun env k doc ops
      → (a : Applied D) × (apply_all env k doc inverse ops ≡ ok a)
        × ((k' : ℕ) → (j : ℕ) × (revert env k' a.doc a.inverse ≡ revert env j doc inverse))
  unfolding apply_all revert
  revert-apply_all {k} {doc} inverse done =
      (record { doc = doc; inverse = inverse; drawn = k }, refl, λ k'. (k', refl))
  revert-apply_all {k} inverse (next step exact e run) =
      let (a, applied, back) = revert-apply_all (step.inverse ∷ inverse) run in
      (
        a,
        rw e applied,
        λ k'.
            let (j, rest) = back k' in
            let (again, ran, restored) = Exact-Reverses env k step exact e j in
            (again.drawn, rest ∙ rw (ran, restored)),
      )

  -- A patch whose operations are exact, each where its turn comes, is applied, and `revert` with
  -- the inverse that `apply` recorded gives back the document as it was before the patch.
  pub revert-apply :
      {k : ℕ} {doc : CanonicalDocument} {ops : List (Patch D)} (k' : ℕ)
      → ExactRun env k doc ops
      → (a : Applied D) × (apply env k doc ops ≡ ok a) × (revert env k' a.doc a.inverse ≡ ok doc)
  unfolding apply revert
  revert-apply k' run =
      let (a, applied, back) = revert-apply_all [] run in (a, applied, (back k').1)
