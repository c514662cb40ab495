-- ===== src/Restyle/Steps.antt =====
-- What one operation of a restyle, and all of them, leave of a document.
use cross_format_documment.Base.{
  ℕ, String, eq_refl, Option, none, some, true, false, List, [], ◌∷◌, ◌++◌, ◌≡◌, refl, sym, ◌∙◌, ap,
  arith, false≢true, Bool-cases, Option-cases, text-cases, inl, inr, subst,
}
use cross_format_documment.Base.Lists.{contains, All, All-append}
use cross_format_documment.Base.Maps.{Map, put, put_all}
use cross_format_documment.Base.Result.{ok, >>=-eq-ok, ok-injective}
use cross_format_documment.Model.{Value, flag, str, Node, CanonicalDocument}
use cross_format_documment.Patch.Op.{Env, Patch}
use cross_format_documment.Patch.Fields
use cross_format_documment.Patch.Fields.{Step, allowed_items, set_attrs}
use cross_format_documment.Patch.Graph.{write}
use cross_format_documment.Patch.Execute.{Applied, apply_one, apply_all}
use cross_format_documment.Restyle.Build.{RestyleStyle, style_fields, entry, payload}

abbrev IsStyle : String × Value → Type 0
IsStyle item = contains item.0 style_fields ≡ true

-- The node with other styles at most.
pub record Restyled (n m : Node) : Type 0 where
  pub rest : record m { fields = n.fields } ≡ n
  pub fields : (name : String) → contains name style_fields ≡ false → m.fields name ≡ n.fields name

entry-IsStyle :
    {A : Type 0} (name : String) (value : A → Value) (o : Option A)
    → contains name style_fields ≡ true
    → All IsStyle (entry name value o)
entry-IsStyle name value none h = tt
entry-IsStyle name value (some a) h = (h, tt)

pub payload-IsStyle : (s : RestyleStyle) → All IsStyle (payload s)
unfolding payload
payload-IsStyle s = both (entry "bold" flag s.bold) _ (entry-IsStyle "bold" flag s.bold refl) (
    both (entry "italic" flag s.italic) _ (entry-IsStyle "italic" flag s.italic refl) (
      both (entry "underline" flag s.underline) _ (entry-IsStyle "underline" flag s.underline refl)
        (both (entry "font" str s.font) _ (entry-IsStyle "font" str s.font refl) (
          both (entry "size" (λ v. v) s.size) _ (entry-IsStyle "size" (λ v. v) s.size refl)
            (entry-IsStyle "color" str s.color refl)))))
  where
    both :
        (xs ys : List (String × Value)) → All IsStyle xs → All IsStyle ys → All IsStyle (xs ++ ys)
    both xs ys a b = All-append IsStyle xs ys a b

put_all_other :
    (keys : List String) (m : Map Value) (items : List (String × Value)) (name : String)
    → contains name style_fields ≡ false
    → All IsStyle items
    → put_all m (allowed_items keys items) name ≡ m name
unfolding allowed_items
put_all_other keys m [] name h all = refl
put_all_other keys m ((k, v) ∷ items) name h (own, all) = elim (Bool-cases (contains k keys)) [
  | inl allowed ↦ rw allowed (
      put_all_other keys (put m k v) items name h all ∙ elim (text-cases k name) [
        | inl same ↦
            absurd (false≢true (sym h ∙ subst (λ x. contains x style_fields ≡ true) same own))
        | inr other ↦ rw other refl
      ])
  | inr barred ↦ rw barred (put_all_other keys m items name h all)
]

-- An operation with these items on a node that meets a condition.
pub data StyleOp (items : List (String × Value)) (Free : String → Type 0) {D : Type 0}
    : Patch D → Type 0 where
  styles : (j : String) → Free j → StyleOp items Free (Patch.update_node (some j) items)

-- Two entries of registries: both are nodes, the second one restyled, or there is none.
unfoldable pub Kin : Option Node → Option Node → Type 0
Kin none none = Unit
Kin none (some m) = ⊥
Kin (some n) none = ⊥
Kin (some n) (some m) = Restyled n m

Kin-refl : (o : Option Node) → Kin o o
unfolding Kin
Kin-refl none = tt
Kin-refl (some n) = record { rest = refl; fields = λ name h. refl }

Kin-some : (o p : Option Node) (n m : Node) → o ≡ some n → p ≡ some m → Restyled n m → Kin o p
unfolding Kin
Kin-some o p n m e f r = rw e (rw f r)

Restyled-trans : (a b c : Node) → Restyled a b → Restyled b c → Restyled a c
Restyled-trans a b c f g = record {
  rest = ap (λ (x : Node). record x { fields = a.fields }) (g.rest) ∙ f.rest;
  fields = λ name h. g.fields name h ∙ f.fields name h;
}

Kin-trans : (o p q : Option Node) → Kin o p → Kin p q → Kin o q
unfolding Kin
Kin-trans none none none f g = tt
Kin-trans none none (some c) f g = absurd g
Kin-trans none (some b) q f g = absurd f
Kin-trans (some a) none q f g = absurd f
Kin-trans (some a) (some b) none f g = absurd g
Kin-trans (some a) (some b) (some c) f g = Restyled-trans a b c f g

module _ {D : Type 0} (env : Env D) (items : List (String × Value)) (Free : String → Type 0)
    (all : All IsStyle items) where
  update-doc :
      (k : ℕ) (a : CanonicalDocument) (j : String) (step : Step D)
      → apply_one env k a (Patch.update_node (some j) items) ≡ ok step
      → (n : Node) × (a.nodes j ≡ some n)
        × (step.doc ≡ write a j (set_attrs n (allowed_items Fields.updatable_node_fields items)))
  unfolding apply_one Fields.update_node
  update-doc k a j step h = elim (Option-cases (a.nodes j)) [
    | inl gone ↦ absurd (cc (rw gone at h))
    | inr (n, known) ↦ (n, known, ground (arith, known))
  ]

  -- One operation: every node is restyled at most, and those that it is not meant for stay.
  StyleOp-step :
      (k : ℕ) (a : CanonicalDocument) (op : Patch D) (step : Step D) (i : String)
      → StyleOp items Free op
      → apply_one env k a op ≡ ok step
      → Kin (a.nodes i) (step.doc.nodes i) × ((Free i → ⊥) → step.doc.nodes i ≡ a.nodes i)
  unfolding Kin
  StyleOp-step k a op step i (styles j free) h =
      let (n, known, e) = update-doc k a j step h in
      let m = set_attrs n (allowed_items Fields.updatable_node_fields items) in
      subst (λ d. Kin (a.nodes i) (d.nodes i) × ((Free i → ⊥) → d.nodes i ≡ a.nodes i)) (sym e)
        (elim (text-cases j i) [
          | inl same ↦ (
            Kin-some (a.nodes i) (put a.nodes j m i) n m
                (subst (λ x. a.nodes x ≡ some n) same known) (rw same (rw eq_refl refl))
                (record {
                  rest = refl;
                  fields = λ name h'.
                      put_all_other Fields.updatable_node_fields n.fields items name h' all;
                }),
            λ barred. absurd (barred (subst Free same free)),
          )
          | inr other ↦
              let stays : put a.nodes j m i ≡ a.nodes i = rw other refl in
              (subst (Kin (a.nodes i)) (sym stays) (Kin-refl (a.nodes i)), λ _. stays)
        ])

  pub StyleOp-All :
      (k : ℕ) (a : CanonicalDocument) (inverse ops : List (Patch D)) (done : Applied D) (i : String)
      → All (StyleOp items Free) ops
      → apply_all env k a inverse ops ≡ ok done
      → Kin (a.nodes i) (done.doc.nodes i) × ((Free i → ⊥) → done.doc.nodes i ≡ a.nodes i)
  unfolding apply_all
  StyleOp-All k a inverse [] done i ops_are h =
      subst
        (λ (x : Applied D).
          Kin (a.nodes i) (x.doc.nodes i) × ((Free i → ⊥) → x.doc.nodes i ≡ a.nodes i))
        (ok-injective h) (Kin-refl (a.nodes i), λ _. refl)
  StyleOp-All k a inverse (op ∷ ops) done i (own, ops_are) h =
      let (step, first, rest) =
        >>=-eq-ok (apply_one env k a op)
          (λ s. apply_all env s.drawn s.doc (s.inverse ∷ inverse) ops) h in
      let (kin, stays) = StyleOp-step k a op step i own first in
      let (kin', stays') =
        StyleOp-All step.drawn step.doc (step.inverse ∷ inverse) ops done i ops_are rest in
      (
        Kin-trans (a.nodes i) (step.doc.nodes i) (done.doc.nodes i) kin kin',
        λ barred. stays' barred ∙ stays barred,
      )
