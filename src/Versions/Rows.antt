-- ===== src/Versions/Rows.antt =====
-- The table of versions: rows by their ids, and what an addition and a deletion do to it.
use cross_format_documment.Base.{
  String, ◌==◌, eq_refl, eq_iff, Option, none, some, Bool, true, false, List, [], ◌∷◌, ◌++◌, ◌≡◌,
  ◌⊎◌, refl, sym, ◌∙◌, ap, subst, arith, if◌then◌else◌, Bool-cases, Option-cases, inl, inr, text_eq,
  text-cases,
}
use cross_format_documment.Base.Lists.{keep}
use cross_format_documment.Versions.Store.{DocumentVersion, find_version, newest_id, add_version}

module _ {J : Type 0} where
  -- `o` where it holds a row, and otherwise the row `v` if it has the id.
  abbrev pub or_row :
      Option (DocumentVersion J) → DocumentVersion J → String → Option (DocumentVersion J)
  or_row none v i = if v.id == i then some v else none
  or_row (some w) v i = some w

  pub find_version-append :
      (vs : List (DocumentVersion J)) (v : DocumentVersion J) (i : String)
      → find_version (vs ++ v ∷ []) i ≡ or_row (find_version vs i) v i
  unfolding find_version
  find_version-append [] v i = refl
  find_version-append (w ∷ vs) v i = ground (arith, find_version-append vs v i)

  pub find_version-id :
      (vs : List (DocumentVersion J)) (i : String) (v : DocumentVersion J)
      → find_version vs i ≡ some v
      → v.id ≡ i
  unfolding find_version
  find_version-id [] i v h = cc
  find_version-id (w ∷ vs) i v h = ground (arith, text_eq w.id i, find_version-id vs i v)

  -- The id is the table's primary key.
  abbrev pub Keyed : List (DocumentVersion J) → Type 0
  Keyed [] = Unit
  Keyed (v ∷ vs) = (find_version vs v.id ≡ none) × Keyed vs

  pub Keyed-append :
      (vs : List (DocumentVersion J)) (v : DocumentVersion J)
      → Keyed vs
      → find_version vs v.id ≡ none
      → Keyed (vs ++ v ∷ [])
  unfolding find_version
  Keyed-append [] v k h = (refl, tt)
  Keyed-append (w ∷ vs) v (fresh, k) h = elim (text-cases w.id v.id) [
    | inl same ↦ ground (arith, same, eq_refl v.id)
    | inr other ↦ (
      find_version-append vs v w.id ∙ ground (arith, fresh, eq_iff v.id w.id, eq_iff w.id v.id),
      Keyed-append vs v k (ground (arith, other)),
    )
  ]

  -- A row that passes a test, and nothing else.
  abbrev pub if_passes :
      (DocumentVersion J → Bool) → Option (DocumentVersion J) → Option (DocumentVersion J)
  if_passes p none = none
  if_passes p (some v) = if p v then some v else none

  pub find_version-keep :
      (p : DocumentVersion J → Bool) (vs : List (DocumentVersion J)) (i : String)
      → Keyed vs
      → find_version (keep p vs) i ≡ if_passes p (find_version vs i)
  unfolding find_version
  find_version-keep p [] i k = refl
  find_version-keep p (v ∷ vs) i (fresh, k) = elim (text-cases v.id i) [
    | inl same ↦
        let e : find_version (keep p vs) i ≡ none =
          find_version-keep p vs i k ∙ rw (← same) (rw fresh refl) in
        ground (arith, e, same, eq_refl i)
    | inr other ↦ ground (arith, other, find_version-keep p vs i k)
  ]

  pub Keyed-keep :
      (p : DocumentVersion J → Bool) (vs : List (DocumentVersion J)) → Keyed vs → Keyed (keep p vs)
  Keyed-keep p [] k = tt
  Keyed-keep p (v ∷ vs) (fresh, k) = elim (Bool-cases (p v)) [
    | inl passes ↦ rw passes (find_version-keep p vs v.id k ∙ rw fresh refl, Keyed-keep p vs k)
    | inr fails ↦ rw fails (Keyed-keep p vs k)
  ]

  newest_id-found :
      (vs : List (DocumentVersion J)) (i : String)
      → newest_id vs ≡ some i
      → (v : DocumentVersion J) × (find_version vs i ≡ some v)
  unfolding find_version
  newest_id-found [] i h = cc
  newest_id-found (v ∷ []) i h = let same : v.id ≡ i = cc in (v, ground (arith, same, eq_refl i))
  newest_id-found (v ∷ w ∷ vs) i h =
      let (u, found) = newest_id-found (w ∷ vs) i h in
      elim (Bool-cases (v.id == i)) [
        | inl here ↦ (v, rw here refl)
        | inr later ↦ (u, rw (later, find_version) found)
      ]

  if_passes-some :
      (p : DocumentVersion J → Bool) (o : Option (DocumentVersion J)) (v : DocumentVersion J)
      → if_passes p o ≡ some v
      → (o ≡ some v) × (p v ≡ true)
  if_passes-some p none v h = cc
  if_passes-some p (some w) v h = elim (Bool-cases (p w)) [
    | inl passes ↦ let e : w ≡ v = cc in (ap some e, subst (λ x. p x ≡ true) e passes)
    | inr fails ↦ cc
  ]

  -- The rows that pass are the kept ones.
  pub kept-row :
      (p : DocumentVersion J → Bool) (vs : List (DocumentVersion J)) (i : String)
      (v : DocumentVersion J)
      → Keyed vs
      → find_version (keep p vs) i ≡ some v
      → (find_version vs i ≡ some v) × (p v ≡ true)
  kept-row p vs i v k h =
      if_passes-some p (find_version vs i) v (sym (find_version-keep p vs i k) ∙ h)

  pub row-kept :
      (p : DocumentVersion J → Bool) (vs : List (DocumentVersion J)) (i : String)
      (v : DocumentVersion J)
      → Keyed vs
      → find_version vs i ≡ some v
      → p v ≡ true
      → find_version (keep p vs) i ≡ some v
  row-kept p vs i v k h passes = find_version-keep p vs i k ∙ rw h (rw passes refl)

  -- The newest of the rows that pass a test is a row of the table that passes it.
  pub newest_id-row :
      (p : DocumentVersion J → Bool) (vs : List (DocumentVersion J)) (i : String)
      → Keyed vs
      → newest_id (keep p vs) ≡ some i
      → (v : DocumentVersion J) × (find_version vs i ≡ some v) × (p v ≡ true)
  newest_id-row p vs i k h =
      let (v, found) = newest_id-found (keep p vs) i h in
      let (row, passes) = kept-row p vs i v k found in (v, row, passes)

  newest_id-last :
      (vs : List (DocumentVersion J)) (v : DocumentVersion J) → newest_id (vs ++ v ∷ []) ≡ some v.id
  newest_id-last [] v = refl
  newest_id-last (w ∷ []) v = refl
  newest_id-last (w ∷ u ∷ vs) v = newest_id-last (u ∷ vs) v

  keep-append :
      (p : DocumentVersion J → Bool) (vs : List (DocumentVersion J)) (v : DocumentVersion J)
      → p v ≡ true
      → keep p (vs ++ v ∷ []) ≡ keep p vs ++ v ∷ []
  keep-append p [] v h = rw h refl
  keep-append p (w ∷ vs) v h = elim (Bool-cases (p w)) [
    | inl passes ↦ rw passes (ap (λ xs. w ∷ xs) (keep-append p vs v h))
    | inr fails ↦ rw fails (keep-append p vs v h)
  ]

  -- A table with a row more ends in that row, where it passes the test.
  pub newest_id-append :
      (p : DocumentVersion J → Bool) (vs : List (DocumentVersion J)) (v : DocumentVersion J)
      → p v ≡ true
      → newest_id (keep p (vs ++ v ∷ [])) ≡ some v.id
  newest_id-append p vs v h = ap newest_id (keep-append p vs v h) ∙ newest_id-last (keep p vs) v

  -- A row is added exactly if its id is new.
  pub add_version-cases :
      (vs : List (DocumentVersion J)) (v : DocumentVersion J)
      → ((find_version vs v.id ≡ none) × (add_version vs v ≡ vs ++ v ∷ []))
        ⊎ ((w : DocumentVersion J) × (find_version vs v.id ≡ some w) × (add_version vs v ≡ vs))
  unfolding add_version
  add_version-cases vs v = elim (Option-cases (find_version vs v.id)) [
    | inl fresh ↦ inl (fresh, rw (add_version, fresh) refl)
    | inr (w, known) ↦ inr (w, known, rw (add_version, known) refl)
  ]

  -- What a table holds, it holds with a row more.
  pub find_version-add_version :
      (vs : List (DocumentVersion J)) (v : DocumentVersion J) (i : String) (w : DocumentVersion J)
      → find_version vs i ≡ some w
      → find_version (add_version vs v) i ≡ some w
  find_version-add_version vs v i w h = elim (add_version-cases vs v) [
    | inl (fresh, e) ↦ rw e (find_version-append vs v i ∙ rw h refl)
    | inr (u, known, e) ↦ rw e h
  ]

  -- What stands under the id of a row after it was added.
  pub find_added_new :
      (vs : List (DocumentVersion J)) (v : DocumentVersion J)
      → find_version vs v.id ≡ none
      → find_version (add_version vs v) v.id ≡ some v
  unfolding add_version
  find_added_new vs v fresh =
      rw (add_version, fresh) (find_version-append vs v v.id ∙ rw fresh (rw (eq_refl v.id) refl))

  pub find_added_known :
      (vs : List (DocumentVersion J)) (v w : DocumentVersion J)
      → find_version vs v.id ≡ some w
      → find_version (add_version vs v) v.id ≡ some w
  unfolding add_version
  find_added_known vs v w known = rw (add_version, known) known

  pub add_version_new :
      (vs : List (DocumentVersion J)) (v : DocumentVersion J)
      → find_version vs v.id ≡ none
      → add_version vs v ≡ vs ++ v ∷ []
  unfolding add_version
  add_version_new vs v fresh = rw (add_version, fresh) refl

  -- Either way: a row more, where the id is new, and nothing else.
  pub find_version-added :
      (vs : List (DocumentVersion J)) (v : DocumentVersion J) (i : String)
      → find_version (add_version vs v) i ≡ or_row (find_version vs i) v i
  find_version-added vs v i = elim (add_version-cases vs v) [
    | inl (fresh, e) ↦ rw e (find_version-append vs v i)
    | inr (w, known, e) ↦ elim (text-cases v.id i) [
      | inl same ↦ rw e (rw (← same) (rw known refl))
      | inr other ↦ rw e (sym (or_row_other (find_version vs i) v i other))
    ]
  ]
    where
      or_row_other :
          (o : Option (DocumentVersion J)) (v : DocumentVersion J) (i : String)
          → (v.id == i) ≡ false
          → or_row o v i ≡ o
      or_row_other none v i h = rw h refl
      or_row_other (some w) v i h = refl
