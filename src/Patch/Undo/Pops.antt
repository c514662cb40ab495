-- ===== src/Patch/Undo/Pops.antt =====
-- Nodes that are taken out of the registry and put back.
use cross_format_documment.Base.{
  String, eq_iff, some, false, List, [], ◌∷◌, ◌≡◌, refl, ◌∙◌, ap, fun_ext, arith, if◌then◌else◌,
  map,
}
use cross_format_documment.Base.Lists.{contains, remove}
use cross_format_documment.Base.Maps.{Map, put, del}
use cross_format_documment.Base.Result.{ok}
use cross_format_documment.Model.{Node, CanonicalDocument}
use cross_format_documment.Patch.Op.{Env}
use cross_format_documment.Patch.Graph.{with_nodes}
use cross_format_documment.Patch.Subtree.{nodes_at, pop_all, register_all, validate_all}

abbrev pub Keyed : Map Node → List String → List Node → Type 0
Keyed m [] [] = Unit
Keyed m (i ∷ is) (n ∷ ns) = (m i ≡ some n) × (n.id ≡ i) × Keyed m is ns
Keyed m _ _ = ⊥

-- None of the ids has a redaction mark.
abbrev pub Unmarked : List String → List String → Type 0
Unmarked marks [] = Unit
Unmarked marks (i ∷ is) = (contains i marks ≡ false) × Unmarked marks is

-- Validation reads a dump of each node back.
abbrev pub Reads : {D : Type 0} → Env D → List Node → Type 0
Reads env [] = Unit
Reads env (n ∷ ns) = (env.validate (env.dump n) ≡ some n) × Reads env ns

abbrev del_all : Map Node → List String → Map Node
del_all m [] = m
del_all m (i ∷ is) = del_all (del m i) is

abbrev put_nodes : Map Node → List Node → Map Node
put_nodes m [] = m
put_nodes m (n ∷ ns) = put_nodes (put m n.id n) ns

pop_all-Unmarked :
    (doc : CanonicalDocument) (ids : List String)
    → Unmarked doc.redaction.redacted_node_ids ids
    → pop_all doc ids ≡ with_nodes doc (del_all doc.nodes ids)
unfolding pop_all
pop_all-Unmarked doc [] h = refl
pop_all-Unmarked doc (i ∷ is) h =
    rw (h.0) (pop_all-Unmarked (with_nodes doc (del doc.nodes i)) is h.1)

register_all-eq :
    (doc : CanonicalDocument) (m : Map Node) (ns : List Node)
    → register_all (with_nodes doc m) ns ≡ with_nodes doc (put_nodes m ns)
unfolding register_all
register_all-eq doc m [] = refl
register_all-eq doc m (n ∷ ns) = register_all-eq doc (put m n.id n) ns

del_all_other :
    (m : Map Node) (ids : List String) (j : String) → contains j ids ≡ false → del_all m ids j ≡ m j
del_all_other m [] j h = refl
del_all_other m (i ∷ is) j h = ground (arith, del_all_other (del m i) is j)

put_nodes-restore :
    (m g : Map Node) (ids : List String) (ns : List Node)
    → Keyed m ids ns
    → ((j : String) → contains j ids ≡ false → g j ≡ m j)
    → put_nodes g ns ≡ m
put_nodes-restore m g [] [] h same = fun_ext λ j. same j refl
put_nodes-restore m g [] (n ∷ ns) h same = absurd h
put_nodes-restore m g (i ∷ is) [] h same = absurd h
put_nodes-restore m g (i ∷ is) (n ∷ ns) h same =
    put_nodes-restore m (put g n.id n) is ns h.2
      λ j new. rw (h.1) (ground (arith, h.0, same j, eq_iff i j))

-- Nodes that were popped and are registered again leave the document as it was.
pub register_all-pop_all :
    (doc : CanonicalDocument) (ids : List String) (ns : List Node)
    → Keyed doc.nodes ids ns
    → Unmarked doc.redaction.redacted_node_ids ids
    → register_all (pop_all doc ids) ns ≡ doc
register_all-pop_all doc ids ns keyed unmarked = rw (pop_all-Unmarked doc ids unmarked) (
    register_all-eq doc (del_all doc.nodes ids) ns
    ∙ ap (with_nodes doc) (
        put_nodes-restore doc.nodes (del_all doc.nodes ids) ids ns keyed
          (del_all_other doc.nodes ids)))

pub nodes_at-Keyed :
    (doc : CanonicalDocument) (ids : List String) (ns : List Node)
    → Keyed doc.nodes ids ns
    → nodes_at doc ids ≡ ok ns
unfolding nodes_at
nodes_at-Keyed doc [] [] h = refl
nodes_at-Keyed doc [] (n ∷ ns) h = absurd h
nodes_at-Keyed doc (i ∷ is) [] h = absurd h
nodes_at-Keyed doc (i ∷ is) (n ∷ ns) h = rw (h.0) (rw (nodes_at-Keyed doc is ns h.2))

pub validate_all-Reads :
    {D : Type 0} (env : Env D) (ns : List Node)
    → Reads env ns
    → validate_all env (map env.dump ns) ≡ ok ns
unfolding validate_all
validate_all-Reads env [] h = refl
validate_all-Reads env (n ∷ ns) h = rw (h.0) (rw (validate_all-Reads env ns h.1))

pub Keyed-put :
    (m : Map Node) (p : String) (x : Node) (ids : List String) (ns : List Node)
    → contains p ids ≡ false
    → Keyed m ids ns
    → Keyed (put m p x) ids ns
Keyed-put m p x [] [] h keyed = tt
Keyed-put m p x [] (n ∷ ns) h keyed = keyed
Keyed-put m p x (i ∷ is) [] h keyed = keyed
Keyed-put m p x (i ∷ is) (n ∷ ns) h keyed = (
  ground (arith, keyed.0, eq_iff p i, eq_iff i p),
  keyed.1,
  Keyed-put m p x is ns (ground arith) keyed.2,
)

pub pop_all_other :
    (doc : CanonicalDocument) (ids : List String) (j : String)
    → contains j ids ≡ false
    → (pop_all doc ids).nodes j ≡ doc.nodes j
unfolding pop_all
pop_all_other doc [] j h = refl
pop_all_other doc (i ∷ is) j h =
    let marks = doc.redaction.redacted_node_ids in
    let popped : CanonicalDocument = record doc {
      nodes = del doc.nodes i;
      redaction = record (doc.redaction) {
        redacted_node_ids = if contains i marks then remove i marks else marks;
      };
    } in
    ground (arith, pop_all_other popped is j)

-- A subtree that can be removed and put back: `nid` stands once among the children of `parent`, no
-- table; the walk from `nid` ends and meets each node once under its own id, not the parent, and no
