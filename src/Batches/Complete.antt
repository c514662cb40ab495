-- ===== src/Batches/Complete.antt =====
-- After the operations of a remediation were applied, a remediation has none.
use cross_format_documment.Base.{
  ℕ, suc, String, none, some, true, false, List, [], ◌∷◌, ◌++◌, ◌≡◌, refl, sym, ◌∙◌, Bool-cases,
  Option-cases, inl, inr, subst,
}
use cross_format_documment.Base.Int.{ℤ, pos}
use cross_format_documment.Base.Lists.{All, All-append, All-split}
use cross_format_documment.Base.Result.{Result, ok, >>=-eq-ok, ok-injective}
use cross_format_documment.Model.{
  Value, null, int, str, truthy, Node, NodeType, CanonicalDocument, attr, is_a,
}
use cross_format_documment.Patch.Op.{Env, Patch}
use cross_format_documment.Patch.Execute.{Applied, apply_all, apply}
use cross_format_documment.Diff.Blocks.{known_nodes, children_of}
use cross_format_documment.Batches.Remediate.{
  alt_placeholder, is_null, tag_ops, order_ops, alt_ops, remediation_ops,
}
use cross_format_documment.Batches.Tags.{
  IsKeyed, Kept, Known-known_nodes, Kept-known_nodes, tag_ops-Fix, tags_none,
}
use cross_format_documment.Batches.Achieved.{Fix-All}
use cross_format_documment.Batches.Follows.{
  Follows, Fix, orders, describes, Fixed, ordered, described, Keeps-is_a,
}

module _ (oi : Value → Result ℤ) (D : Type 0) where
  -- The operations on the reading order.
  order_ops-Fix :
      (a : CanonicalDocument) (index : ℕ) (nodes : List Node)
      → All (Fix oi a {D = D}) (order_ops index nodes)
  unfolding order_ops
  order_ops-Fix a index [] = tt
  order_ops-Fix a index (n ∷ nodes) = elim (Bool-cases (is_null (attr n "reading_order" null))) [
    | inl missing ↦ rw missing (orders n.id index, order_ops-Fix a (suc index) nodes)
    | inr given ↦ rw given (order_ops-Fix a (suc index) nodes)
  ]

  ordered-node :
      (b : CanonicalDocument) (i : String) (index : ℕ) (m : Node)
      → Fixed oi b {D = D} (Patch.update_node (some i) (("reading_order", int (pos index)) ∷ []))
      → b.nodes i ≡ some m
      → is_null (attr m "reading_order" null) ≡ false
  ordered-node b i index m (ordered _ _ n known e) at_b =
      let same : n ≡ m = cc (sym known ∙ at_b) in
      subst (λ x. is_null (attr x "reading_order" null) ≡ false) same e

  order_none :
      (b : CanonicalDocument) (index : ℕ) (ns ms : List Node)
      → Kept oi b ns ms
      → All (Fixed oi b {D = D}) (order_ops index ns)
      → order_ops {D = D} index ms ≡ []
  unfolding order_ops
  order_none b index [] [] kept fixed = refl
  order_none b index [] (m ∷ ms) kept fixed = absurd kept
  order_none b index (n ∷ ns) [] kept fixed = absurd kept
  order_none b index (n ∷ ns) (m ∷ ms) ((k, at_b), kept) fixed =
      elim (Bool-cases (is_null (attr n "reading_order" null))) [
        | inl missing ↦
            let (own, others) : All (Fixed oi b {D = D}) (
                Patch.update_node (some n.id) (("reading_order", int (pos index)) ∷ [])
                ∷ order_ops (suc index) ns) =
              rw missing at fixed in
            rw (ordered-node b n.id index m own at_b) (order_none b (suc index) ns ms kept others)
        | inr given ↦ rw (k.ordered given) (order_none b (suc index) ns ms kept (rw given at fixed))
      ]

  -- The operations on images.
  alt_ops-Fix : (a : CanonicalDocument) (nodes : List Node) → All (Fix oi a {D = D}) (alt_ops nodes)
  unfolding alt_ops
  alt_ops-Fix a [] = tt
  alt_ops-Fix a (n ∷ nodes) = elim (Bool-cases (is_a NodeType.image n)) [
    | inl image ↦ elim (Bool-cases (truthy (attr n "alt_text" null))) [
      | inl given ↦ rw image (rw given (alt_ops-Fix a nodes))
      | inr missing ↦ rw image (rw missing (describes n.id, alt_ops-Fix a nodes))
    ]
    | inr other ↦ rw other (alt_ops-Fix a nodes)
  ]

  described-node :
      (b : CanonicalDocument) (i : String) (m : Node)
      → Fixed oi b {D = D} (Patch.update_node (some i) (("alt_text", str alt_placeholder) ∷ []))
      → b.nodes i ≡ some m
      → truthy (attr m "alt_text" null) ≡ true
  described-node b i m (described _ n known e) at_b =
      let same : n ≡ m = cc (sym known ∙ at_b) in
      subst (λ x. truthy (attr x "alt_text" null) ≡ true) same e

  alt_none :
      (b : CanonicalDocument) (ns ms : List Node)
      → Kept oi b ns ms
      → All (Fixed oi b {D = D}) (alt_ops ns)
      → alt_ops {D = D} ms ≡ []
  unfolding alt_ops
  alt_none b [] [] kept fixed = refl
  alt_none b [] (m ∷ ms) kept fixed = absurd kept
  alt_none b (n ∷ ns) [] kept fixed = absurd kept
  alt_none b (n ∷ ns) (m ∷ ms) ((k, at_b), kept) fixed = elim (Bool-cases (is_a NodeType.image n)) [
    | inl image ↦
        let image_m = Keeps-is_a oi NodeType.image n m k ∙ image in
        elim (Bool-cases (truthy (attr n "alt_text" null))) [
          | inl given ↦
              rw image_m
                (rw (k.described given) (alt_none b ns ms kept (rw given at (rw image at fixed))))
          | inr missing ↦
              let (own, others) : All (Fixed oi b {D = D}) (
                  Patch.update_node (some n.id) (("alt_text", str alt_placeholder) ∷ [])
                  ∷ alt_ops ns) =
                rw missing at (rw image at fixed) in
              rw image_m (rw (described-node b n.id m own at_b) (alt_none b ns ms kept others))
        ]
    | inr other ↦
        rw (Keeps-is_a oi NodeType.image n m k ∙ other) (alt_none b ns ms kept (rw other at fixed))
  ]

children_of-none : (a : CanonicalDocument) (i : String) → a.nodes i ≡ none → children_of a i ≡ []
unfolding children_of
children_of-none a i gone = rw (gone, children_of) refl

children_of-some :
    (a : CanonicalDocument) (i : String) (n : Node)
    → a.nodes i ≡ some n
    → children_of a i ≡ known_nodes a n.children
unfolding children_of
children_of-some a i n known = rw (known, children_of) refl

children-Kept :
    (oi : Value → Result ℤ) (a b : CanonicalDocument) (i : String)
    → Follows oi a b
    → IsKeyed a
    → Kept oi b (children_of a i) (children_of b i)
children-Kept oi a b i f keyed = elim (Option-cases (a.nodes i)) [
  | inl gone ↦ rw (children_of-none a i gone) (rw (children_of-none b i (f.gone i gone)) tt)
  | inr (n, known) ↦
      let (m, at_b, k) = f.there i n known in
      rw (children_of-some a i n known) (
        rw (children_of-some b i m at_b)
          (rw (k.children) (Kept-known_nodes oi a b f keyed n.children)))
]

-- Where each node stands in the registry under its id: after the operations of a remediation were
-- applied, a remediation has none.
pub remediation_is_complete :
    {D : Type 0} (env : Env D) (oi : Value → Result ℤ) (k : ℕ) (a : CanonicalDocument)
    (ks : List String) (ops : List (Patch D)) (done : Applied D)
    → IsKeyed a
    → remediation_ops oi ks a ≡ ok ops
    → apply env k a ops ≡ ok done
    → remediation_ops {D = D} oi ks done.doc ≡ ok []
unfolding apply remediation_ops
remediation_is_complete {D = D} env oi k a ks ops done keyed h ran =
    let (tags, tagged_ops, sum) =
      >>=-eq-ok (tag_ops oi (known_nodes a ks))
        (λ tags. ok (tags ++ order_ops 0 (children_of a a.root_id) ++ alt_ops (known_nodes a ks)))
        h in
    let order : List (Patch D) = order_ops 0 (children_of a a.root_id) in
    let alt : List (Patch D) = alt_ops (known_nodes a ks) in
    let known = Known-known_nodes a ks keyed in
    let fixes : All (Fix oi a) (tags ++ order ++ alt) =
      All-append (Fix oi a) (tags ++ order) alt
        (All-append (Fix oi a) tags order
          (tag_ops-Fix oi a (known_nodes a ks) tags known tagged_ops)
          (order_ops-Fix oi D a 0 (children_of a a.root_id)))
        (alt_ops-Fix oi D a (known_nodes a ks)) in
    let (f, fixed) =
      Fix-All oi env k a [] (tags ++ order ++ alt) done fixes
        (subst (λ os. apply_all env k a [] os ≡ ok done) (sym (ok-injective sum)) ran) in
    let (others, fixed_alt) = All-split (Fixed oi done.doc) (tags ++ order) alt fixed in
    let (fixed_tags, fixed_order) = All-split (Fixed oi done.doc) tags order others in
    let kept = Kept-known_nodes oi a done.doc f keyed ks in
    rw
      (tags_none oi done.doc (known_nodes a ks) (known_nodes done.doc ks) tags kept tagged_ops
        fixed_tags)
      (rw (f.root) (
        rw
          (order_none oi D done.doc 0 (children_of a a.root_id) (children_of done.doc a.root_id)
            (children-Kept oi a done.doc a.root_id f keyed) fixed_order)
          (rw (alt_none oi D done.doc (known_nodes a ks) (known_nodes done.doc ks) kept fixed_alt)
            refl)))
