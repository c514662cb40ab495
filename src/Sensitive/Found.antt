-- ===== src/Sensitive/Found.antt =====
-- The nodes of the findings of both engines, and of the merged ones.
use Prim.Native.Char.{Char}
use cross_format_documment.Base.{
  ◌&&◌, Option-cases, String, ◌==◌, eq_refl, true, false, List, [], ◌∷◌, ◌++◌, map, ◌≡◌, ◌⊎◌, refl,
  sym, arith, false≢true, Bool-cases, text-cases, inl, inr, subst,
}
use cross_format_documment.Base.Lists.{contains, any_of}
use cross_format_documment.Base.Result.{Result, ok, ok-injective}
use cross_format_documment.Model.{Value, str, Node}
use cross_format_documment.Sensitive.Scan.{
  Detectors, SensitiveFinding, scan_text, finding_of, findings_in, ids_from,
}
use cross_format_documment.Sensitive.Presidio.{
  RecognizerResult, Analyzer, map_results, analyzed, merge,
}
use cross_format_documment.Sensitive.Mask.{CharTables}
use cross_format_documment.Base.Text.{chars}

abbrev pub node_ids : List SensitiveFinding → List String
node_ids [] = []
node_ids (f ∷ fs) = f.node_id ∷ node_ids fs

-- Every node of a finding is among those to redact.
pub ids_from_complete :
    (seen : List String) (fs : List SensitiveFinding) (i : String)
    → contains i (node_ids fs) ≡ true
    → contains i seen ≡ false
    → contains i (ids_from seen fs) ≡ true
unfolding ids_from
ids_from_complete seen [] i h new = cc
ids_from_complete seen (f ∷ fs) i h new = elim (text-cases f.node_id i) [
  | inl same ↦ ground (arith, same, eq_refl i)
  | inr other ↦
      ground (arith, other, ids_from_complete seen fs i, ids_from_complete (f.node_id ∷ seen) fs i)
]

pub node_ids-left :
    (i : String) (fs gs : List SensitiveFinding)
    → contains i (node_ids fs) ≡ true
    → contains i (node_ids (fs ++ gs)) ≡ true
node_ids-left i [] gs h = absurd (false≢true h)
node_ids-left i (f ∷ fs) gs h = ground (arith, node_ids-left i fs gs)

pub node_ids-right :
    (i : String) (fs gs : List SensitiveFinding)
    → contains i (node_ids gs) ≡ true
    → contains i (node_ids (fs ++ gs)) ≡ true
node_ids-right i [] gs h = h
node_ids-right i (f ∷ fs) gs h = ground (arith, node_ids-right i fs gs)

-- A finding in a node is one of that node.
first_finding :
    (id : String) (det : Detectors) (hits : List (String × String)) (found : List SensitiveFinding)
    → map (finding_of det id) hits ≡ found
    → (found ≡ []) ⊎ (contains id (node_ids found) ≡ true)
unfolding finding_of
first_finding id det [] found h = inl (sym h)
first_finding id det (hit ∷ hits) found h =
    inr (subst (λ fs. contains id (node_ids fs) ≡ true) h (rw eq_refl))

pub findings_in-own :
    (det : Detectors) (node : Node) (v : Value) (found : List SensitiveFinding)
    → findings_in det node v ≡ ok found
    → (found ≡ []) ⊎ (contains node.id (node_ids found) ≡ true)
unfolding findings_in
findings_in-own det node (str text) found h =
    first_finding node.id det (scan_text det text) found (ok-injective h)
findings_in-own det node _ found h = absurd (cc h)

-- What an engine finds in a node are findings of that node.
abbrev pub Own : (Node → Value → Result (List SensitiveFinding)) → Type 0
Own find =
    (node : Node) (v : Value) (found : List SensitiveFinding)
    → find node v ≡ ok found
    → (found ≡ []) ⊎ (contains node.id (node_ids found) ≡ true)

pub node_ids-merge :
    (i : String) (fs extra : List SensitiveFinding)
    → contains i (node_ids fs) ≡ true
    → contains i (node_ids (merge fs extra)) ≡ true
unfolding merge
node_ids-merge i fs [] h = h
node_ids-merge i fs (f ∷ extra) h = ground (
  arith,
  node_ids-merge i fs extra h,
  node_ids-merge i (fs ++ f ∷ []) extra (node_ids-left i fs (f ∷ []) h),
)

known_node :
    (f : SensitiveFinding) (fs : List SensitiveFinding)
    → any_of (λ g. g.node_id == f.node_id && g.category == f.category) fs ≡ true
    → contains f.node_id (node_ids fs) ≡ true
known_node f [] h = h
known_node f (g ∷ fs) h = ground (arith, h, known_node f fs)

-- A finding that is not added is one of a node that has a finding already.
pub node_ids-merge_extra :
    (i : String) (fs extra : List SensitiveFinding)
    → contains i (node_ids extra) ≡ true
    → contains i (node_ids (merge fs extra)) ≡ true
unfolding merge
node_ids-merge_extra i fs [] h = absurd (false≢true h)
node_ids-merge_extra i fs (f ∷ extra) h =
    elim (Bool-cases (any_of (λ g. g.node_id == f.node_id && g.category == f.category) fs)) [
      | inl known ↦
          rw (merge, known)
            (elim (text-cases f.node_id i) [
              | inl same ↦
                  node_ids-merge i fs extra
                    (subst (λ x. contains x (node_ids fs) ≡ true) same (known_node f fs known))
              | inr other ↦ node_ids-merge_extra i fs extra (ground (arith, h, other))
            ])
      | inr new ↦
          rw (merge, new)
            (elim (text-cases f.node_id i) [
              | inl same ↦
                  node_ids-merge i (fs ++ f ∷ []) extra
                    (node_ids-right i fs (f ∷ []) (ground (arith, same, eq_refl i)))
              | inr other ↦ node_ids-merge_extra i (fs ++ f ∷ []) extra (ground (arith, h, other))
            ])
    ]

module _ (tables : CharTables) (analyzer : Analyzer) where
  map_results-own :
      (id : String) (text : List Char) (results : List RecognizerResult)
      → (map_results tables analyzer id text results ≡ [])
        ⊎ (contains id (node_ids (map_results tables analyzer id text results)) ≡ true)
  unfolding map_results
  map_results-own id text [] = inl refl
  map_results-own id text (r ∷ results) =
      ground (arith, map_results-own id text results, eq_refl id)

  pub analyzed-Own : Own (analyzed tables analyzer)
  unfolding analyzed
  analyzed-Own node (str text) found h = elim (Option-cases (analyzer.analyze text)) [
    | inl raised ↦ inl (sym (ok-injective (rw (analyzed, raised) at h)))
    | inr (results, e) ↦
        subst (λ fs. (fs ≡ []) ⊎ (contains node.id (node_ids fs) ≡ true))
          (ok-injective (rw (analyzed, e) at h)) (map_results-own node.id (chars text) results)
  ]
  analyzed-Own node _ found h = inl (sym (ok-injective h))
