-- ===== src/Redaction/Ancestors.antt =====
-- `is_redacted` decides whether a node or one of its ancestors is marked, also where the parent
-- edges run in a circle.
use cross_format_documment.Base.{
  ℕ, zero, suc, ◌<◌, ◌≤◌, String, ◌==◌, eq_iff, eq_refl, none, some, Bool, true, false, List, [],
  ◌∷◌, ◌≡◌, ◌⊎◌, inl, inr, refl, sym, ◌∙◌, arith, if◌then◌else◌, Bool-cases, Option-cases,
  text-cases, subst, ◌↔◌, false≢true,
}
use cross_format_documment.Base.Lists.{contains, length}
use cross_format_documment.Model.{Node, CanonicalDocument}
use cross_format_documment.Redaction.{parent_of, climb, is_redacted, is_empty}

-- A node is marked, or its parent is covered.
pub data Covered (doc : CanonicalDocument) : String → Type 0 where
  marked : (i : String) → contains i doc.redaction.redacted_node_ids ≡ true → Covered doc i
  above : (i p : String) → parent_of doc i ≡ some p → Covered doc p → Covered doc i

empty-contains : (ids : List String) (i : String) → is_empty ids ≡ true → contains i ids ≡ true → ⊥
empty-contains [] i e h = false≢true h
empty-contains (x ∷ ids) i e h = false≢true e

module _ (doc : CanonicalDocument) where
  abbrev marks : List String
  marks = doc.redaction.redacted_node_ids

  -- One round of the loop, by what it finds.
  climb_seen :
      (r : ℕ) (seen : List String) (i : String)
      → contains i seen ≡ true
      → climb (suc r) doc seen i ≡ some false
  unfolding climb
  climb_seen r seen i h = rw h

  climb_marked :
      (r : ℕ) (seen : List String) (i : String)
      → contains i seen ≡ false
      → contains i marks ≡ true
      → climb (suc r) doc seen i ≡ some true
  unfolding climb
  climb_marked r seen i h m = rw h (rw m)

  climb_top :
      (r : ℕ) (seen : List String) (i : String)
      → contains i seen ≡ false
      → contains i marks ≡ false
      → parent_of doc i ≡ none
      → climb (suc r) doc seen i ≡ some false
  unfolding climb
  climb_top r seen i h m top = rw h (rw m (rw (top, climb)))

  climb_up :
      (r : ℕ) (seen : List String) (i p : String)
      → contains i seen ≡ false
      → contains i marks ≡ false
      → parent_of doc i ≡ some p
      → climb (suc r) doc seen i ≡ climb r doc (i ∷ seen) p
  unfolding climb
  climb_up r seen i p h m up = rw h (rw m (rw (up, climb)))

  -- The ids passed so far are not marked, and the parent of each is the current id or one of them.
  abbrev Passed : List String → String → Type 0
  Passed seen current =
      (s : String)
      → contains s seen ≡ true
      → (contains s marks ≡ false)
        × ((p : String) → parent_of doc s ≡ some p → (p ≡ current) ⊎ (contains p seen ≡ true))

  -- Ids without a mark that hold the parent of each of them.
  abbrev IsClosed : List String → Type 0
  IsClosed ids =
      (s : String)
      → contains s ids ≡ true
      → (contains s marks ≡ false)
        × ((p : String) → parent_of doc s ≡ some p → contains p ids ≡ true)

  closed-not-Covered :
      (ids : List String) → IsClosed ids → (i : String) → contains i ids ≡ true → Covered doc i → ⊥
  closed-not-Covered ids closed i h (marked _ m) = false≢true (sym ((closed i h).0) ∙ m)
  closed-not-Covered ids closed i h (above _ p up c) =
      closed-not-Covered ids closed p ((closed i h).1 p up) c

  -- The current id is a marked one, or the loop goes on from its parent with one more id passed.
  Passed-up :
      (seen : List String) (i p : String)
      → Passed seen i
      → contains i marks ≡ false
      → parent_of doc i ≡ some p
      → Passed (i ∷ seen) p
  Passed-up seen i p passed m up s h = elim (text-cases i s) [
    | inl same ↦ (
      subst (λ x. contains x marks ≡ false) same m,
      λ q e.
          let here : p ≡ q = cc (sym up ∙ subst (λ x. parent_of doc x ≡ some q) (sym same) e) in
          inl (sym here),
    )
    | inr other ↦
        let (clean, next) = passed s (rw other at h) in
        (
          clean,
          λ q e. elim (next q e) [
            | inl current ↦ inr (rw current (rw eq_refl))
            | inr before ↦ inr (ground (arith, before))
          ],
        )
  ]

  climb_true :
      (r : ℕ) (seen : List String) (i : String) → climb r doc seen i ≡ some true → Covered doc i
  unfolding climb
  climb_true zero seen i h = cc
  climb_true (suc r) seen i h = elim (Bool-cases (contains i marks)) [
    | inl m ↦ marked i m
    | inr m ↦ elim (Bool-cases (contains i seen)) [
      | inl s ↦ absurd (cc (climb_seen r seen i s))
      | inr s ↦ elim (Option-cases (parent_of doc i)) [
        | inl top ↦ absurd (cc (climb_top r seen i s m top))
        | inr (p, up) ↦
            above i p up (climb_true r (i ∷ seen) p (sym (climb_up r seen i p s m up) ∙ h))
      ]
    ]
  ]

  IsClosed-by_seen :
      (seen : List String) (i : String) → contains i seen ≡ true → Passed seen i → IsClosed seen
  IsClosed-by_seen seen i here passed s h =
      let (clean, next) = passed s h in
      (clean, λ p up. elim (next p up) [ inl current ↦ rw current here | inr before ↦ before ])

  IsClosed-by_top :
      (seen : List String) (i : String)
      → contains i marks ≡ false
      → parent_of doc i ≡ none
      → Passed seen i
      → IsClosed (i ∷ seen)
  IsClosed-by_top seen i m top passed s h = elim (text-cases i s) [
    | inl same ↦ (
      subst (λ x. contains x marks ≡ false) same m,
      λ p up. absurd (cc (sym top ∙ subst (λ x. parent_of doc x ≡ some p) (sym same) up)),
    )
    | inr other ↦
        let (clean, next) = passed s (rw other at h) in
        (
          clean,
          λ p up. elim (next p up) [
            | inl current ↦ rw current (rw eq_refl)
            | inr before ↦ ground (arith, before)
          ],
        )
  ]

  -- Where the loop says no, the ids passed are part of a closed list that holds the current one.
  climb-false :
      (r : ℕ) (seen : List String) (i : String)
      → Passed seen i
      → climb r doc seen i ≡ some false
      → (ids : List String) × IsClosed ids
        × (contains i ids ≡ true)
        × ((s : String) → contains s seen ≡ true → contains s ids ≡ true)
  unfolding climb
  climb-false zero seen i passed h = cc
  climb-false (suc r) seen i passed h = elim (Bool-cases (contains i seen)) [
    | inl s ↦ (seen, IsClosed-by_seen seen i s passed, s, λ t e. e)
    | inr s ↦ elim (Bool-cases (contains i marks)) [
      | inl m ↦ absurd (cc (climb_marked r seen i s m))
      | inr m ↦ elim (Option-cases (parent_of doc i)) [
        | inl top ↦
            (i ∷ seen, IsClosed-by_top seen i m top passed, rw eq_refl, λ t e. ground (arith, e))
        | inr (p, up) ↦
            let (ids, closed, at_p, before) =
              climb-false r (i ∷ seen) p (Passed-up seen i p passed m up)
                (sym (climb_up r seen i p s m up) ∙ h) in
            (ids, closed, before i (rw eq_refl), λ t e. before t (ground (arith, e)))
      ]
    ]
  ]

  -- The keys of the registry that the loop has not passed.
  abbrev unseen : List String → List String → ℕ
  unseen [] seen = 0
  unseen (k ∷ ks) seen = if contains k seen then unseen ks seen else suc (unseen ks seen)

  unseen-le : (ks seen : List String) (i : String) → unseen ks (i ∷ seen) ≤ unseen ks seen
  unseen-le [] seen i = omega arith
  unseen-le (k ∷ ks) seen i = ground (arith, unseen-le ks seen i)

  unseen-lt :
      (ks seen : List String) (i : String)
      → contains i ks ≡ true
      → contains i seen ≡ false
      → unseen ks (i ∷ seen) < unseen ks seen
  unseen-lt [] seen i h s = cc
  unseen-lt (k ∷ ks) seen i h s = elim (text-cases k i) [
    | inl same ↦ rw same (rw eq_refl (rw s (omega (arith, unseen-le ks seen i))))
    | inr other ↦ ground (arith, eq_iff i k, eq_iff k i, unseen-lt ks seen i (rw other at h) s)
  ]

  unseen-le-length : (ks seen : List String) → unseen ks seen ≤ length ks
  unseen-le-length [] seen = omega arith
  unseen-le-length (k ∷ ks) seen = ground (arith, unseen-le-length ks seen)

  -- The keys of the registry.
  abbrev pub IsKeys : List String → Type 0
  IsKeys ks = (i : String) (n : Node) → doc.nodes i ≡ some n → contains i ks ≡ true

  parent-known :
      (ks : List String)
      → IsKeys ks
      → (i p : String) → parent_of doc i ≡ some p
      → contains i ks ≡ true
  parent-known ks keys i p up = elim (Option-cases (doc.nodes i)) [
    | inl unknown ↦ ground (arith, unknown)
    | inr (n, known) ↦ keys i n known
  ]

  climb_ends :
      (ks : List String) (r : ℕ) (seen : List String) (i : String)
      → IsKeys ks
      → unseen ks seen < r
      → (b : Bool) × (climb r doc seen i ≡ some b)
  climb_ends ks zero seen i keys h = absurd (omega arith)
  climb_ends ks (suc r) seen i keys h = elim (Bool-cases (contains i seen)) [
    | inl s ↦ (false, climb_seen r seen i s)
    | inr s ↦ elim (Bool-cases (contains i marks)) [
      | inl m ↦ (true, climb_marked r seen i s m)
      | inr m ↦ elim (Option-cases (parent_of doc i)) [
        | inl top ↦ (false, climb_top r seen i s m top)
        | inr (p, up) ↦
            let (b, e) =
              climb_ends ks r (i ∷ seen) p keys
                (omega (arith, unseen-lt ks seen i (parent-known ks keys i p up) s)) in
            (b, climb_up r seen i p s m up ∙ e)
      ]
    ]
  ]

  no_marks-not-Covered : is_empty marks ≡ true → (i : String) → Covered doc i → ⊥
  no_marks-not-Covered e i (marked _ m) = empty-contains marks i e m
  no_marks-not-Covered e i (above _ p up c) = no_marks-not-Covered e p c

  -- With more rounds than the registry has keys, `is_redacted` answers, and says yes exactly if the
  -- node or one of its ancestors is marked; the parent edges may run in a circle.
  pub is_redacted-decides :
      (ks : List String) (rounds : ℕ) (i : String)
      → IsKeys ks
      → length ks < rounds
      → (i == "") ≡ false
      → (b : Bool) × (is_redacted rounds doc (some i) ≡ some b) × ((b ≡ true) ↔ Covered doc i)
  unfolding is_redacted
  is_redacted-decides ks rounds i keys enough id = elim (Bool-cases (is_empty marks)) [
    | inl e ↦ (false, rw e, (λ h. absurd (false≢true h), λ c. absurd (no_marks-not-Covered e i c)))
    | inr e ↦
        let (b, found) = climb_ends ks rounds [] i keys (omega (arith, unseen-le-length ks [])) in
        (
          b,
          rw e (rw id found),
          (λ yes_found. climb_true rounds [] i (rw yes_found at found), found_of b found),
        )
  ]
    where
      found_of : (b : Bool) → climb rounds doc [] i ≡ some b → Covered doc i → b ≡ true
      found_of true found c = refl
      found_of false found c =
          let (ids, closed, here, _) =
            climb-false rounds [] i (λ s h. absurd (false≢true h)) found in
          absurd (closed-not-Covered ids closed i here c)
