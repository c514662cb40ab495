-- ===== src/Batches/Follows.antt =====
-- What the operations of a remediation leave of a document, and what they achieve.
use cross_format_documment.Base.{
  ℕ, String, eq_iff, eq_refl, none, some, true, false, List, [], ◌∷◌, ◌≡◌, refl, sym, ◌∙◌, ap,
  arith, text-cases, inl, inr, subst,
}
use cross_format_documment.Base.Int.{ℤ, pos}
use cross_format_documment.Base.Lists.{contains}
use cross_format_documment.Base.Result.{Result, ok}
use cross_format_documment.Model.{
  Value, null, int, str, truthy, Node, NodeType, CanonicalDocument, attr, is_a, same_type,
}
use cross_format_documment.Patch.Op.{Patch}
use cross_format_documment.Patch.Graph.{write}
use cross_format_documment.Batches.Remediate.{alt_placeholder, is_null, tag_of_level, heading_tag}

-- What the remediation reads of a node, and what it asks of it.
pub record Keeps (other_int : Value → Result ℤ) (n m : Node) : Type 0 where
  pub type : m.type ≡ n.type
  pub id : m.id ≡ n.id
  pub children : m.children ≡ n.children
  pub level : attr m "level" (int (pos 1)) ≡ attr n "level" (int (pos 1))
  pub tagged :
      (t : String)
      → heading_tag other_int n ≡ ok t
      → contains t n.tags ≡ true
      → contains t m.tags ≡ true
  pub ordered :
      is_null (attr n "reading_order" null) ≡ false → is_null (attr m "reading_order" null) ≡ false
  pub described : truthy (attr n "alt_text" null) ≡ true → truthy (attr m "alt_text" null) ≡ true

-- The second document has the nodes of the first one, with what was asked of them.
pub record Follows (other_int : Value → Result ℤ) (a b : CanonicalDocument) : Type 0 where
  pub root : b.root_id ≡ a.root_id
  pub gone : (i : String) → a.nodes i ≡ none → b.nodes i ≡ none
  pub there :
      (i : String) (n : Node)
      → a.nodes i ≡ some n
      → (m : Node) × (b.nodes i ≡ some m) × Keeps other_int n m

module _ (oi : Value → Result ℤ) where
  pub Keeps-heading_tag : (n m : Node) → Keeps oi n m → heading_tag oi m ≡ heading_tag oi n
  Keeps-heading_tag n m k = ap (tag_of_level oi) (k.level)

  pub Keeps-is_a : (t : NodeType) (n m : Node) → Keeps oi n m → is_a t m ≡ is_a t n
  Keeps-is_a t n m k = ap (λ x. same_type x t) (k.type)

  pub Keeps-refl : (n : Node) → Keeps oi n n
  Keeps-refl n = record {
    type = refl;
    id = refl;
    children = refl;
    level = refl;
    tagged = λ t e c. c;
    ordered = λ e. e;
    described = λ e. e;
  }

  pub Keeps-trans : (a b c : Node) → Keeps oi a b → Keeps oi b c → Keeps oi a c
  Keeps-trans a b c f g = record {
    type = g.type ∙ f.type;
    id = g.id ∙ f.id;
    children = g.children ∙ f.children;
    level = g.level ∙ f.level;
    tagged = λ t e h. g.tagged t (Keeps-heading_tag a b f ∙ e) (f.tagged t e h);
    ordered = λ e. g.ordered (f.ordered e);
    described = λ e. g.described (f.described e);
  }

  pub Follows-refl : (a : CanonicalDocument) → Follows oi a a
  Follows-refl a = record { root = refl; gone = λ i e. e; there = λ i n e. (n, e, Keeps-refl n) }

  pub Follows-trans : (a b c : CanonicalDocument) → Follows oi a b → Follows oi b c → Follows oi a c
  Follows-trans a b c f g = record {
    root = g.root ∙ f.root;
    gone = λ i e. g.gone i (f.gone i e);
    there = λ i n e.
        let (m, at_b, k) = f.there i n e in
        let (o, at_c, l) = g.there i m at_b in (o, at_c, Keeps-trans n m o k l);
  }

  -- One node is replaced by one that keeps what is asked.
  pub Follows-write :
      (a : CanonicalDocument) (i : String) (n m : Node)
      → a.nodes i ≡ some n
      → Keeps oi n m
      → Follows oi a (write a i m)
  Follows-write a i n m known k = record {
    root = refl;
    gone = λ j e. ground (arith, eq_iff i j, known, e);
    there = λ j x e. elim (text-cases i j) [
      | inl same ↦
          let found : n ≡ x = cc (sym known ∙ subst (λ z. a.nodes z ≡ some x) (sym same) e) in
          (m, rw same (rw eq_refl refl), subst (λ y. Keeps oi y m) found k)
      | inr other ↦ (x, ground (arith, other, e), Keeps-refl x)
    ];
  }

-- The operations that a remediation uses.
pub data Fix (oi : Value → Result ℤ) (a : CanonicalDocument) {D : Type 0} : Patch D → Type 0 where
  retags :
      (i t : String) (n : Node) (tags : List String)
      → a.nodes i ≡ some n
      → heading_tag oi n ≡ ok t
      → contains t tags ≡ true
      → Fix oi a (Patch.retag (some i) tags)
  orders :
      (i : String) (n : ℕ)
      → Fix oi a (Patch.update_node (some i) (("reading_order", int (pos n)) ∷ []))
  describes :
      (i : String) → Fix oi a (Patch.update_node (some i) (("alt_text", str alt_placeholder) ∷ []))

-- What such an operation is for holds.
pub data Fixed (oi : Value → Result ℤ) (b : CanonicalDocument) {D : Type 0} : Patch D → Type 0 where
  tagged :
      (i t : String) (n : Node) (tags : List String)
      → b.nodes i ≡ some n
      → heading_tag oi n ≡ ok t
      → contains t n.tags ≡ true
      → Fixed oi b (Patch.retag (some i) tags)
  ordered :
      (i : String) (n : ℕ) (node : Node)
      → b.nodes i ≡ some node
      → is_null (attr node "reading_order" null) ≡ false
      → Fixed oi b (Patch.update_node (some i) (("reading_order", int (pos n)) ∷ []))
  described :
      (i : String) (node : Node)
      → b.nodes i ≡ some node
      → truthy (attr node "alt_text" null) ≡ true
      → Fixed oi b (Patch.update_node (some i) (("alt_text", str alt_placeholder) ∷ []))

module _ (oi : Value → Result ℤ) {D : Type 0} where
  pub Fix-Follows :
      (a b : CanonicalDocument) (op : Patch D) → Follows oi a b → Fix oi a op → Fix oi b op
  Fix-Follows a b op f (retags i t n tags known e c) =
      let (m, at_b, k) = f.there i n known in
      retags i t m tags at_b (Keeps-heading_tag oi n m k ∙ e) c
  Fix-Follows a b op f (orders i n) = orders i n
  Fix-Follows a b op f (describes i) = describes i

  pub Fixed-Follows :
      (a b : CanonicalDocument) (op : Patch D) → Follows oi a b → Fixed oi a op → Fixed oi b op
  Fixed-Follows a b op f (tagged i t n tags known e c) =
      let (m, at_b, k) = f.there i n known in
      tagged i t m tags at_b (Keeps-heading_tag oi n m k ∙ e) (k.tagged t e c)
  Fixed-Follows a b op f (ordered i p n known e) =
      let (m, at_b, k) = f.there i n known in ordered i p m at_b (k.ordered e)
  Fixed-Follows a b op f (described i n known e) =
      let (m, at_b, k) = f.there i n known in described i m at_b (k.described e)
