-- ===== src/Health/Clean.antt =====
-- When the panel reports no issue.
use cross_format_documment.Base.{
  String, ◌⊎◌, Bool-cases, sym, ◌∙◌, inl, inr, ◌==◌, Bool, true, false, not, ◌&&◌, List, [], ◌∷◌,
  ◌++◌, ◌≡◌, ◌↔◌, refl, arith, false≢true, ap,
}
use cross_format_documment.Base.Lists.{any_of, All}
use cross_format_documment.Base.Maps.{get_or}
use cross_format_documment.Patch.Fields.{risky_meta_keys}
use cross_format_documment.Model.{null, truthy, Node, NodeType, CanonicalDocument, attr, is_a}
use cross_format_documment.Health.{
  HealthFinding, is_nil, lacks_alt, missing_alt, is_at_risk, issues, finding_if, or_ok,
  compute_health,
}

-- An image has a description that counts as true; other nodes need none.
abbrev pub Described : Node → Type 0
Described n = (is_a NodeType.image n ≡ false) ⊎ (truthy (attr n "alt_text" null) ≡ true)

-- A metadata key has a value that counts as true.
abbrev pub Filled : CanonicalDocument → String → Type 0
Filled doc k = truthy (get_or doc.meta.custom k null) ≡ true

-- A title, a description for every image, no redaction that waits, and metadata that are marked as
-- sanitized or have no value for an author, a manager and so on.
pub record Clean (doc : CanonicalDocument) (nodes : List Node) : Type 0 where
  pub titled : doc.accessibility.has_doc_title ≡ true
  pub described : All Described nodes
  pub harmless :
      (doc.redaction.metadata_sanitized ≡ true) ⊎ All (λ k. ¬ Filled doc k) risky_meta_keys
  pub settled : doc.redaction.pending ≡ []

abbrev first_is_ok : List HealthFinding → Bool
first_is_ok [] = false
first_is_ok (f ∷ findings) = f.level == "ok"

-- The findings by the four tests.
panel :
    (titled described risky settled : Bool)
    → (or_ok (
          finding_if (not titled) "warn" "a11y.no_title"
          ++ finding_if (not described) "warn" "a11y.missing_alt"
          ++ finding_if risky "warn" "trust.metadata"
          ++ finding_if (not settled) "fail" "trust.redaction_pending")
        ≡ record { level = "ok"; code = "ok" } ∷ [])
      ↔ (titled && described && not risky && settled ≡ true)
panel false described risky settled =
    (λ h. absurd (false≢true (ap first_is_ok h)), λ h. absurd (false≢true h))
panel true false risky settled =
    (λ h. absurd (false≢true (ap first_is_ok h)), λ h. absurd (false≢true h))
panel true true true settled =
    (λ h. absurd (false≢true (ap first_is_ok h)), λ h. absurd (false≢true h))
panel true true false false =
    (λ h. absurd (false≢true (ap first_is_ok h)), λ h. absurd (false≢true h))
panel true true false true = (λ _. refl, λ _. refl)

is_nil-empty : {A : Type 0} (xs : List A) → is_nil xs ≡ true → xs ≡ []
is_nil-empty [] h = refl
is_nil-empty (x ∷ xs) h = cc

missing_alt-All : (nodes : List Node) → (is_nil (missing_alt nodes) ≡ true) ↔ All Described nodes
unfolding missing_alt
missing_alt-All [] = (λ _. tt, λ _. refl)
missing_alt-All (n ∷ nodes) =
    let (down, up) = missing_alt-All nodes in
    elim (Bool-cases (lacks_alt n)) [
      | inl lacks ↦ (
        λ h. absurd (false≢true (rw (missing_alt, lacks) at h)),
        λ (here, _). absurd (lacks_not n lacks here),
      )
      | inr fine ↦ (
        λ h. (described_if n fine, down (rw (missing_alt, fine) at h)),
        λ (_, later). rw (missing_alt, fine) (up later),
      )
    ]
  where
    lacks_not : (n : Node) → lacks_alt n ≡ true → Described n → ⊥
    lacks_not n l (inl other) = absurd (false≢true (sym (rw other refl) ∙ l))
    lacks_not n l (inr shown) = ground (arith, l, shown)

    described_if : (n : Node) → lacks_alt n ≡ false → Described n
    described_if n f = elim (Bool-cases (is_a NodeType.image n)) [
      | inl image ↦ inr (ground (arith, f, image))
      | inr other ↦ inl other
    ]

none-Filled :
    (doc : CanonicalDocument) (keys : List String)
    → (any_of (λ k. truthy (get_or doc.meta.custom k null)) keys ≡ false)
      ↔ All (λ k. ¬ Filled doc k) keys
none-Filled doc [] = (λ _. tt, λ _. refl)
none-Filled doc (k ∷ keys) =
    let (down, up) = none-Filled doc keys in
    elim (Bool-cases (truthy (get_or doc.meta.custom k null))) [
      | inl filled ↦
          (λ h. absurd (false≢true (sym (rw filled at h))), λ (here, _). absurd (here filled))
      | inr blank ↦ (
        λ h. (λ filled. absurd (false≢true (sym blank ∙ filled)), down (rw blank at h)),
        λ (_, later). rw blank (up later),
      )
    ]

harmless-cases :
    (doc : CanonicalDocument)
    → (is_at_risk doc ≡ false)
      ↔ ((doc.redaction.metadata_sanitized ≡ true) ⊎ All (λ k. ¬ Filled doc k) risky_meta_keys)
unfolding is_at_risk
harmless-cases doc = elim (Bool-cases doc.redaction.metadata_sanitized) [
  | inl done ↦ (λ _. inl done, λ _. rw (is_at_risk, done) refl)
  | inr kept ↦
      let (down, up) = none-Filled doc risky_meta_keys in
      (
        λ h. inr (down (rw (is_at_risk, kept) at h)),
        elim [
          | inl done ↦ absurd (false≢true (sym kept ∙ done))
          | inr harmless ↦ rw (is_at_risk, kept) (up harmless)
        ],
      )
]

-- The panel says "ok", and only that, exactly if the document has a title, each image among the nodes
-- a description, no redaction waits, and the metadata are marked as sanitized or have no value for a
-- risky key.
pub compute_health_lem :
    (doc : CanonicalDocument) (nodes : List Node)
    → ((compute_health doc nodes).0.findings ≡ record { level = "ok"; code = "ok" } ∷ [])
      ↔ Clean doc nodes
unfolding compute_health issues
compute_health_lem doc nodes =
    let (clean, says) =
      panel doc.accessibility.has_doc_title (is_nil (missing_alt nodes)) (is_at_risk doc)
        (is_nil doc.redaction.pending) in
    let (alts, no_alts) = missing_alt-All nodes in
    let (risks, no_risks) = harmless-cases doc in
    (
      λ h.
          let (titled, described, harmless, settled) = all_four _ _ _ _ (clean h) in
          record {
            titled = titled;
            described = alts described;
            harmless = risks harmless;
            settled = is_nil-empty doc.redaction.pending settled;
          },
      λ c. says (
          four_all _ _ _ _ c.titled (no_alts c.described) (no_risks c.harmless)
            (rw (c.settled) refl)),
    )
  where
    all_four :
        (a b c d : Bool)
        → a && b && not c && d ≡ true
        → (a ≡ true) × (b ≡ true) × (c ≡ false) × (d ≡ true)
    all_four a b c d h =
        (ground (arith, h), ground (arith, h), ground (arith, h), ground (arith, h))

    four_all :
        (a b c d : Bool) → a ≡ true → b ≡ true → c ≡ false → d ≡ true → a && b && not c && d ≡ true
    four_all a b c d ha hb hc hd = rw (ha, hb, hc, hd) refl
