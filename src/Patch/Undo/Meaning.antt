-- ===== src/Patch/Undo/Meaning.antt =====
-- What it means that an operation is undone by the inverse that it returns.
use cross_format_documment.Base.{ℕ, ◌≡◌}
use cross_format_documment.Base.Result.{ok}
use cross_format_documment.Model.{CanonicalDocument}
use cross_format_documment.Patch.Op.{Env, Patch}
use cross_format_documment.Patch.Fields.{Step}
use cross_format_documment.Patch.Execute.{apply_one}

module _ {D : Type 0} (env : Env D) where
  -- The inverse of a step runs and gives the document back, whatever ids are drawn.
  abbrev pub Reverses : CanonicalDocument → Step D → Type 0
  Reverses doc step =
      (k : ℕ)
      → (again : Step D) × (apply_one env k step.doc step.inverse ≡ ok again) × (again.doc ≡ doc)

  -- The operation succeeds, and its inverse undoes it.
  abbrev pub Undoes : ℕ → CanonicalDocument → Patch D → Type 0
  Undoes k doc op = (step : Step D) × (apply_one env k doc op ≡ ok step) × Reverses doc step

  pub Undoes-by :
      (k : ℕ) (doc : CanonicalDocument) (op : Patch D) (found : Step D)
      → apply_one env k doc op ≡ ok found
      → Reverses doc found
      → Undoes k doc op
  Undoes-by k doc op found e back = (found, e, back)
