-- ===== src/Patch/Restore.antt =====
-- How the registry, a node's fields and the metadata come back to what they were.
use cross_format_documment.Base.{
  String, eq_iff, some, true, false, List, [], ◌∷◌, ◌≡◌, refl, ◌∙◌, ap, fun_ext, arith, Bool-cases,
  inl, inr,
}
use cross_format_documment.Base.Lists.{contains}
use cross_format_documment.Base.Maps.{Map, has, put, del, put_all, put-put, put_self}
use cross_format_documment.Model.{Value, null, Node, CanonicalDocument, attr}
use cross_format_documment.Patch.Graph.{write, with_nodes}
use cross_format_documment.Patch.Fields.{allowed_items, values_before, leaking, pop_keys, keys_of}

-- A node that is overwritten and then written back as it was leaves the document as it was.
pub write_back :
    (doc : CanonicalDocument) (t : String) (n changed restored : Node)
    → doc.nodes t ≡ some n
    → restored ≡ n
    → write (write doc t changed) t restored ≡ doc
write_back doc t n changed restored h e =
    ap (with_nodes doc) (put-put doc.nodes t changed restored ∙ rw e (put_self doc.nodes t n h))

-- The entries that a list of items holds of a map.
abbrev pub Holds : Map Value → List (String × Value) → Type 0
Holds f [] = Unit
Holds f ((k, v) ∷ items) = (f k ≡ some v) × Holds f items

-- The items' names are attributes of the node.
abbrev pub Present : Map Value → List (String × Value) → Type 0
Present f [] = Unit
Present f ((k, v) ∷ items) = (has f k ≡ true) × Present f items

pub put_all-restore :
    (f g : Map Value) (items : List (String × Value))
    → Holds f items
    → ((j : String) → contains j (keys_of items) ≡ false → g j ≡ f j)
    → put_all g items ≡ f
put_all-restore f g [] h same = fun_ext λ j. same j refl
put_all-restore f g ((k, v) ∷ items) h same =
    put_all-restore f (put g k v) items h.1 λ j new. ground (arith, h.0, same j, eq_iff k j)

pub put_all_other :
    (f : Map Value) (items : List (String × Value)) (j : String)
    → contains j (keys_of items) ≡ false
    → put_all f items j ≡ f j
put_all_other f [] j h = refl
put_all_other f ((k, v) ∷ items) j h = ground (arith, put_all_other (put f k v) items j)

pub pop_keys_other :
    (f : Map Value) (items : List (String × Value)) (j : String)
    → contains j (keys_of items) ≡ false
    → pop_keys f items j ≡ f j
unfolding pop_keys
pop_keys_other f [] j h = refl
pop_keys_other f ((k, v) ∷ items) j h = ground (arith, pop_keys_other (del f k) items j)

pub leaking-Holds : (f : Map Value) (ks : List String) → Holds f (leaking f ks)
unfolding leaking
leaking-Holds f [] = tt
leaking-Holds f (k ∷ ks) = ground (arith, leaking-Holds f ks)

pub values_before-Holds :
    (n : Node) (items : List (String × Value))
    → Present n.fields items
    → Holds n.fields (values_before n items)
unfolding values_before
values_before-Holds n [] h = tt
values_before-Holds n ((k, v) ∷ items) h = (ground (arith, h.0), values_before-Holds n items h.1)

pub keys_of-values_before :
    (n : Node) (items : List (String × Value)) → keys_of (values_before n items) ≡ keys_of items
unfolding values_before
keys_of-values_before n [] = refl
keys_of-values_before n ((k, v) ∷ items) = ap (λ ks. k ∷ ks) (keys_of-values_before n items)

-- Setting attributes that a node has, and then their values before, restores the node.
pub put_all-values_before :
    (n : Node) (items : List (String × Value))
    → Present n.fields items
    → put_all (put_all n.fields items) (values_before n items) ≡ n.fields
put_all-values_before n items h =
    put_all-restore n.fields (put_all n.fields items) (values_before n items)
      (values_before-Holds n items h)
      λ j new. put_all_other n.fields items j (rw keys_of-values_before at new)

-- Popping what leaks, and putting it back, restores the metadata.
pub put_all-pop_keys :
    (f : Map Value) (ks : List String) → put_all (pop_keys f (leaking f ks)) (leaking f ks) ≡ f
put_all-pop_keys f ks =
    put_all-restore f (pop_keys f (leaking f ks)) (leaking f ks) (leaking-Holds f ks)
      (pop_keys_other f (leaking f ks))

-- The names that the first filter lets through pass again.
pub allowed_items_again :
    (allowed : List String) (n : Node) (items : List (String × Value))
    → allowed_items allowed (values_before n (allowed_items allowed items))
      ≡ values_before n (allowed_items allowed items)
unfolding allowed_items values_before
allowed_items_again allowed n [] = refl
allowed_items_again allowed n ((k, v) ∷ items) = elim (Bool-cases (contains k allowed)) [
  | inl fits ↦
      rw fits (rw fits (ap (λ es. (k, attr n k null) ∷ es) (allowed_items_again allowed n items)))
  | inr out ↦ rw out (allowed_items_again allowed n items)
]
