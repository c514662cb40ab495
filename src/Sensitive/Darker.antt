-- ===== src/Sensitive/Darker.antt =====
-- What redact_ops do to the marks of a document, and to the nodes they cover.
use cross_format_documment.Base.{
  ℕ, String, ◌==◌, some, true, false, List, [], ◌∷◌, ◌++◌, ◌≡◌, refl, sym, ◌∙◌, arith, false≢true,
  if◌then◌else◌, Bool-cases, text-cases, inl, inr, subst,
}
use cross_format_documment.Base.Lists.{contains, contains-append_self}
use cross_format_documment.Base.Result.{ok, >>=-eq-ok, ok-injective}
use cross_format_documment.Model.{CanonicalDocument}
use cross_format_documment.Redaction.Ancestors.{Covered, marked, above, IsKeys}
use cross_format_documment.Patch.Op.{Env, Patch}
use cross_format_documment.Patch.Fields
use cross_format_documment.Patch.Fields.{Step}
use cross_format_documment.Patch.Execute.{Applied, apply_one, apply_all}
use cross_format_documment.Sensitive.Routes.{redact_ops}

abbrev pub marks : CanonicalDocument → List String
marks doc = doc.redaction.redacted_node_ids

contains-append_left :
    (i j : String) (xs : List String) → contains i xs ≡ true → contains i (xs ++ j ∷ []) ≡ true
contains-append_left i j [] h = cc
contains-append_left i j (x ∷ xs) h = ground (arith, contains-append_left i j xs)

-- The document has the nodes of the other one, and its marks and more.
pub record Darker (doc dark : CanonicalDocument) : Type 0 where
  pub nodes : dark.nodes ≡ doc.nodes
  pub kept : (i : String) → contains i (marks doc) ≡ true → contains i (marks dark) ≡ true

abbrev with_mark : CanonicalDocument → String → CanonicalDocument
with_mark doc i =
    if contains i (marks doc) then doc else Fields.with_marks doc (marks doc ++ i ∷ [])

with_mark-Darker : (doc : CanonicalDocument) (i : String) → Darker doc (with_mark doc i)
with_mark-Darker doc i = elim (Bool-cases (contains i (marks doc))) [
  | inl known ↦ rw known (record { nodes = refl; kept = λ j e. e })
  | inr new ↦ rw new (record { nodes = refl; kept = λ j e. contains-append_left j i (marks doc) e })
]

with_mark-marks :
    (doc : CanonicalDocument) (i : String) → contains i (marks (with_mark doc i)) ≡ true
with_mark-marks doc i = elim (Bool-cases (contains i (marks doc))) [
  | inl known ↦ rw known known
  | inr new ↦ rw new (contains-append_self i (marks doc))
]

pub Darker-trans : (a b c : CanonicalDocument) → Darker a b → Darker b c → Darker a c
Darker-trans a b c f g = record { nodes = g.nodes ∙ f.nodes; kept = λ i e. g.kept i (f.kept i e) }

-- Of the ids, those that are not empty are marked.
abbrev pub Marked : List String → CanonicalDocument → Type 0
Marked ids doc =
    (i : String) → (i == "") ≡ false → contains i ids ≡ true → contains i (marks doc) ≡ true

module _ {D : Type 0} (env : Env D) where
  apply_one-redact :
      (k : ℕ) (doc : CanonicalDocument) (i : String) (step : Step D)
      → (i == "") ≡ false
      → apply_one env k doc (Patch.redact (some i)) ≡ ok step
      → step.doc ≡ with_mark doc i
  unfolding apply_one Fields.redact
  apply_one-redact k doc i step id h = ground arith

  apply_one-redact_empty :
      (k : ℕ) (doc : CanonicalDocument) (i : String) (step : Step D)
      → (i == "") ≡ true
      → apply_one env k doc (Patch.redact (some i)) ≡ ok step
      → step.doc ≡ doc
  unfolding apply_one Fields.redact
  apply_one-redact_empty k doc i step id h = ground arith

  redact_one :
      (k : ℕ) (doc : CanonicalDocument) (i : String) (step : Step D)
      → apply_one env k doc (Patch.redact (some i)) ≡ ok step
      → Darker doc step.doc × ((i == "") ≡ false → contains i (marks step.doc) ≡ true)
  redact_one k doc i step h = elim (Bool-cases (i == "")) [
    | inl empty ↦ (
      subst (Darker doc) (sym (apply_one-redact_empty k doc i step empty h))
          (record { nodes = refl; kept = λ j e. e }),
      λ id. absurd (false≢true (sym id ∙ empty)),
    )
    | inr id ↦
        subst (λ d. Darker doc d × ((i == "") ≡ false → contains i (marks d) ≡ true))
          (sym (apply_one-redact k doc i step id h))
          (with_mark-Darker doc i, λ _. with_mark-marks doc i)
  ]

  pub redact_all :
      (ids : List String) (k : ℕ) (doc : CanonicalDocument) (inverse : List (Patch D))
      (done : Applied D)
      → apply_all env k doc inverse (redact_ops ids) ≡ ok done
      → Darker doc done.doc × Marked ids done.doc
  unfolding apply_all
  redact_all [] k doc inverse done h =
      subst (λ (a : Applied D). Darker doc a.doc × Marked [] a.doc) (ok-injective h)
        (record { nodes = refl; kept = λ i e. e }, λ i id e. absurd (false≢true e))
  redact_all (i ∷ ids) k doc inverse done h =
      let (step, first, rest) =
        >>=-eq-ok (apply_one env k doc (Patch.redact (some i)))
          (λ s. apply_all env s.drawn s.doc (s.inverse ∷ inverse) (redact_ops ids)) h in
      let (later, all) = redact_all ids step.drawn step.doc (step.inverse ∷ inverse) done rest in
      let (dark, own) = redact_one k doc i step first in
      (
        Darker-trans doc step.doc done.doc dark later,
        λ j named e. elim (text-cases i j) [
          | inl same ↦
              subst (λ x. contains x (marks done.doc) ≡ true) same
                (later.kept i (own (rw same named)))
          | inr other ↦ all j named (rw other at e)
        ],
      )

-- What is covered stays covered.
pub Covered-Darker :
    (doc dark : CanonicalDocument) (i : String) → Darker doc dark → Covered doc i → Covered dark i
Covered-Darker doc dark i d (marked _ m) = marked i (d.kept i m)
Covered-Darker doc dark i d (above _ p up c) =
    above i p (rw (d.nodes) up) (Covered-Darker doc dark p d c)

pub IsKeys-Darker :
    (doc dark : CanonicalDocument) (ks : List String)
    → Darker doc dark
    → IsKeys doc ks
    → IsKeys dark ks
IsKeys-Darker doc dark ks d keys i n h = keys i n (rw (d.nodes) at h)
