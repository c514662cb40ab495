-- ===== src/Batches/Tags.antt =====
-- The tags of headings: after their operations were applied, there are none left.
use cross_format_documment.Base.{
  String, none, some, true, false, List, [], ◌∷◌, ◌++◌, ◌≡◌, refl, sym, ◌∙◌, Bool-cases,
  Option-cases, inl, inr, subst,
}
use cross_format_documment.Base.Int.{ℤ}
use cross_format_documment.Base.Lists.{contains, contains-append_self, All}
use cross_format_documment.Base.Result.{Result, ok, ◌>>=◌, >>=-eq-ok, ok-injective}
use cross_format_documment.Model.{Value, Node, NodeType, CanonicalDocument, is_a}
use cross_format_documment.Patch.Op.{Patch}
use cross_format_documment.Diff.Blocks.{known_nodes}
use cross_format_documment.Batches.Remediate.{heading_tag, with_tag, tag_ops}
use cross_format_documment.Batches.Follows.{
  Keeps, Follows, Fix, retags, Fixed, tagged, Keeps-heading_tag, Keeps-is_a,
}

-- Each node stands in the registry under its id.
abbrev pub IsKeyed : CanonicalDocument → Type 0
IsKeyed a = (k : String) (n : Node) → a.nodes k ≡ some n → n.id ≡ k

abbrev pub Known : CanonicalDocument → List Node → Type 0
Known a nodes = All (λ n. a.nodes n.id ≡ some n) nodes

-- The second list has for each node of the first one what the later document has under its id.
abbrev pub Kept : (Value → Result ℤ) → CanonicalDocument → List Node → List Node → Type 0
Kept oi b [] [] = Unit
Kept oi b [] (m ∷ ms) = ⊥
Kept oi b (n ∷ ns) [] = ⊥
Kept oi b (n ∷ ns) (m ∷ ms) = (Keeps oi n m × (b.nodes n.id ≡ some m)) × Kept oi b ns ms

known_nodes-none :
    (a : CanonicalDocument) (k : String) (ks : List String)
    → a.nodes k ≡ none
    → known_nodes a (k ∷ ks) ≡ known_nodes a ks
unfolding known_nodes
known_nodes-none a k ks gone = rw (gone, known_nodes) refl

known_nodes-some :
    (a : CanonicalDocument) (k : String) (ks : List String) (n : Node)
    → a.nodes k ≡ some n
    → known_nodes a (k ∷ ks) ≡ n ∷ known_nodes a ks
unfolding known_nodes
known_nodes-some a k ks n known = rw (known, known_nodes) refl

pub Known-known_nodes :
    (a : CanonicalDocument) (ks : List String) → IsKeyed a → Known a (known_nodes a ks)
unfolding known_nodes
Known-known_nodes a [] keyed = tt
Known-known_nodes a (k ∷ ks) keyed = elim (Option-cases (a.nodes k)) [
  | inl gone ↦ rw (known_nodes-none a k ks gone) (Known-known_nodes a ks keyed)
  | inr (n, known) ↦
      rw (known_nodes-some a k ks n known) (
        subst (λ i. a.nodes i ≡ some n) (sym (keyed k n known)) known,
        Known-known_nodes a ks keyed,
      )
]

module _ (oi : Value → Result ℤ) (a b : CanonicalDocument) (f : Follows oi a b)
    (keyed : IsKeyed a) where
  pub Kept-known_nodes : (ks : List String) → Kept oi b (known_nodes a ks) (known_nodes b ks)
  unfolding known_nodes
  Kept-known_nodes [] = tt
  Kept-known_nodes (k ∷ ks) = elim (Option-cases (a.nodes k)) [
    | inl gone ↦
        rw (known_nodes-none a k ks gone)
          (rw (known_nodes-none b k ks (f.gone k gone)) (Kept-known_nodes ks))
    | inr (n, known) ↦
        let (m, at_b, keeps) = f.there k n known in
        rw (known_nodes-some a k ks n known) (
          rw (known_nodes-some b k ks m at_b) (
            (keeps, subst (λ i. b.nodes i ≡ some m) (sym (keyed k n known)) at_b),
            Kept-known_nodes ks,
          ))
  ]

module _ (oi : Value → Result ℤ) {D : Type 0} where
  -- The operations on tags.
  pub tag_ops-Fix :
      (a : CanonicalDocument) (nodes : List Node) (ops : List (Patch D))
      → Known a nodes
      → tag_ops oi nodes ≡ ok ops
      → All (Fix oi a) ops
  unfolding tag_ops
  tag_ops-Fix a [] ops known h = subst (All (Fix oi a)) (ok-injective h) tt
  tag_ops-Fix a (n ∷ nodes) ops (own, known) h = elim (Bool-cases (is_a NodeType.heading n)) [
    | inl heading ↦
        let (tag, e, more) =
          >>=-eq-ok (heading_tag oi n) (λ tag. tag_ops oi nodes >>= λ ops. ok (with_tag n tag ops))
            (rw heading at h) in
        let (rest, e', sum) = >>=-eq-ok (tag_ops oi nodes) (λ ops. ok (with_tag n tag ops)) more in
        subst (All (Fix oi a)) (ok-injective sum)
          (with_tag-Fix tag rest e (tag_ops-Fix a nodes rest known e'))
    | inr other ↦ tag_ops-Fix a nodes ops known (rw other at h)
  ]
    where
      with_tag-Fix :
          (tag : String) (rest : List (Patch D))
          → heading_tag oi n ≡ ok tag
          → All (Fix oi a) rest
          → All (Fix oi a) (with_tag n tag rest)
      with_tag-Fix tag rest e fixes = elim (Bool-cases (contains tag n.tags)) [
        | inl there ↦ rw there fixes
        | inr new ↦
            rw new (
              retags n.id tag n (n.tags ++ tag ∷ []) own e (contains-append_self tag n.tags),
              fixes,
            )
      ]

  -- A node with what an operation on its tag was for has none of them afterwards.
  tag_ops-tagged :
      (m : Node) (ms : List Node) (tag : String)
      → is_a NodeType.heading m ≡ true
      → heading_tag oi m ≡ ok tag
      → contains tag m.tags ≡ true
      → tag_ops {D = D} oi ms ≡ ok []
      → tag_ops {D = D} oi (m ∷ ms) ≡ ok []
  unfolding tag_ops
  tag_ops-tagged m ms tag heading e c rest = rw heading (rw e (rw rest (rw c refl)))

  tag_ops-other :
      (m : Node) (ms : List Node)
      → is_a NodeType.heading m ≡ false
      → tag_ops {D = D} oi (m ∷ ms) ≡ tag_ops oi ms
  unfolding tag_ops
  tag_ops-other m ms other = rw other refl

  tagged-node :
      (b : CanonicalDocument) (i tag : String) (m : Node) (tags : List String)
      → Fixed oi b {D = D} (Patch.retag (some i) tags)
      → b.nodes i ≡ some m
      → heading_tag oi m ≡ ok tag
      → contains tag m.tags ≡ true
  tagged-node b i tag m tags (tagged _ t n _ known e c) at_b e' =
      let same : n ≡ m = cc (sym known ∙ at_b) in
      let tags_eq : t ≡ tag =
        ok-injective (sym e ∙ subst (λ x. heading_tag oi x ≡ ok tag) (sym same) e') in
      subst (λ x. contains tag x.tags ≡ true) same (subst (λ u. contains u n.tags ≡ true) tags_eq c)

  pub tags_none :
      (b : CanonicalDocument) (ns ms : List Node) (ops : List (Patch D))
      → Kept oi b ns ms
      → tag_ops oi ns ≡ ok ops
      → All (Fixed oi b) ops
      → tag_ops {D = D} oi ms ≡ ok []
  unfolding tag_ops
  tags_none b [] [] ops kept h fixed = refl
  tags_none b [] (m ∷ ms) ops kept h fixed = absurd kept
  tags_none b (n ∷ ns) [] ops kept h fixed = absurd kept
  tags_none b (n ∷ ns) (m ∷ ms) ops ((k, at_b), kept) h fixed =
      elim (Bool-cases (is_a NodeType.heading n)) [
        | inl heading ↦
            let (tag, e, more) =
              >>=-eq-ok (heading_tag oi n) (λ tag. tag_ops oi ns >>= λ ops. ok (with_tag n tag ops))
                (rw heading at h) in
            let (rest, e', sum) = >>=-eq-ok (tag_ops oi ns) (λ ops. ok (with_tag n tag ops)) more in
            let tag_of_m = Keeps-heading_tag oi n m k ∙ e in
            let (c, fixed') =
              split_tag tag rest tag_of_m e
                (subst (All (Fixed oi b)) (sym (ok-injective sum)) fixed) in
            tag_ops-tagged m ms tag (Keeps-is_a oi NodeType.heading n m k ∙ heading) tag_of_m c
              (tags_none b ns ms rest kept e' fixed')
        | inr other ↦
            tag_ops-other m ms (Keeps-is_a oi NodeType.heading n m k ∙ other)
            ∙ tags_none b ns ms ops kept (rw other at h) fixed
      ]
    where
      split_tag :
          (tag : String) (rest : List (Patch D))
          → heading_tag oi m ≡ ok tag
          → heading_tag oi n ≡ ok tag
          → All (Fixed oi b) (with_tag n tag rest)
          → (contains tag m.tags ≡ true) × All (Fixed oi b) rest
      split_tag tag rest e' e all = elim (Bool-cases (contains tag n.tags)) [
        | inl there ↦ (k.tagged tag e there, rw there at all)
        | inr new ↦
            let (own, others) : All (Fixed oi b)
                (Patch.retag (some n.id) (n.tags ++ tag ∷ []) ∷ rest) =
              rw new at all in
            (tagged-node b n.id tag m (n.tags ++ tag ∷ []) own at_b e', others)
      ]
