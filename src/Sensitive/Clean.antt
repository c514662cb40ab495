-- ===== src/Sensitive/Clean.antt =====
-- After the nodes of all findings are redacted, a scan finds nothing.
use cross_format_documment.Base.{
  ℕ, ◌<◌, String, ◌==◌, Option, none, some, Bool, true, false, List, [], ◌∷◌, ◌++◌, ◌≡◌, refl, sym,
  ◌∙◌, ap, Bool-cases, inl, inr, ◌↔◌, subst,
}
use cross_format_documment.Base.Lists.{length, All}
use cross_format_documment.Base.Result.{Result, ok, ◌>>=◌, >>=-eq-ok, ok-injective}
use cross_format_documment.Model.{Value, str, truthy, Node, CanonicalDocument, attr}
use cross_format_documment.Redaction.{is_redacted}
use cross_format_documment.Redaction.Ancestors.{Covered, marked, IsKeys, is_redacted-decides}
use cross_format_documment.Patch.Op.{Env}
use cross_format_documment.Patch.Execute.{Applied, apply}
use cross_format_documment.Sensitive.Darker.{
  Marked, Darker, redact_all, Covered-Darker, IsKeys-Darker,
}
use cross_format_documment.Sensitive.Routes.{redact_ops}
use cross_format_documment.Sensitive.Scan.{
  Detectors, SensitiveFinding, findings_in, scan_node, scan_nodes, scan_document, ids_from,
  redaction_node_ids,
}
use cross_format_documment.Sensitive.Presidio.{
  Analyzer, analyzed, presidio_findings, merge, with_engine, scan,
}
use cross_format_documment.Sensitive.Found.{
  node_ids, ids_from_complete, Own, node_ids-left, node_ids-right, node_ids-merge,
  node_ids-merge_extra, findings_in-own, analyzed-Own,
}

abbrev pub HasId : Node → Type 0
HasId n = (n.id == "") ≡ false

module _ (find : Node → Value → Result (List SensitiveFinding)) (own_nodes : Own find) (rounds : ℕ)
    (doc dark : CanonicalDocument) (ks : List String) (d : Darker doc dark) (keys : IsKeys doc ks)
    (enough : length ks < rounds) where
  dark_redacted :
      (i : String)
      → (i == "") ≡ false
      → Covered dark i
      → is_redacted rounds dark (some i) ≡ some true
  dark_redacted i id covered =
      let (c, f, iff) =
        is_redacted-decides dark ks rounds i (IsKeys-Darker doc dark ks d keys) enough id in
      rw (iff.1 covered) at f

  -- A node whose findings are all marked has none afterwards.
  clean_node :
      (node : Node) (found : List SensitiveFinding)
      → HasId node
      → scan_node find rounds doc node (is_redacted rounds doc (some node.id)) ≡ ok found
      → Marked (node_ids found) dark
      → scan_node find rounds dark node (is_redacted rounds dark (some node.id)) ≡ ok []
  unfolding scan_node
  clean_node node found id h all =
      let (b, e, iff) = is_redacted-decides doc ks rounds node.id keys enough id in
      by_answer b e iff
    where
      by_dark :
          (c : Bool)
          → find node (attr node "text" (str "")) ≡ ok []
          → scan_node find rounds dark node (some c) ≡ ok []
      by_dark true none_left = refl
      by_dark false none_left = none_left

      by_answer :
          (b : Bool)
          → is_redacted rounds doc (some node.id) ≡ some b
          → (b ≡ true) ↔ Covered doc node.id
          → scan_node find rounds dark node (is_redacted rounds dark (some node.id)) ≡ ok []
      by_answer true e iff =
          rw (dark_redacted node.id id (Covered-Darker doc dark node.id d (iff.0 refl))) refl
      by_answer false e iff =
          let scanned = rw e at h in
          elim (own_nodes node (attr node "text" (str "")) found scanned) [
            | inl nothing ↦
                let (c, f, _) =
                  is_redacted-decides dark ks rounds node.id (IsKeys-Darker doc dark ks d keys)
                    enough id in
                rw f (by_dark c (scanned ∙ ap ok nothing))
            | inr own ↦ rw (dark_redacted node.id id (marked node.id (all node.id id own))) refl
          ]

  -- The rest of the scan, in which each finding's node is marked afterwards.
  clean_nodes :
      (nodes : List Node) (found : List SensitiveFinding)
      → All HasId nodes
      → scan_nodes find rounds doc nodes ≡ ok found
      → Marked (node_ids found) dark
      → scan_nodes find rounds dark nodes ≡ ok []
  unfolding scan_nodes
  clean_nodes [] found id h all = refl
  clean_nodes (node ∷ nodes) found (id, ids) h all =
      elim (Bool-cases (truthy (attr node "text" (str "")))) [
        | inl shown ↦
            let (mine, e, more) =
              >>=-eq-ok (scan_node find rounds doc node (is_redacted rounds doc (some node.id)))
                (λ found. scan_nodes find rounds doc nodes >>= λ rest. ok (found ++ rest))
                (rw shown at h) in
            let (rest, f, sum) =
              >>=-eq-ok (scan_nodes find rounds doc nodes) (λ rest. ok (mine ++ rest)) more in
            let both : Marked (node_ids (mine ++ rest)) dark =
              subst (λ fs. Marked (node_ids fs) dark) (sym (ok-injective sum)) all in
            rw shown (
              rw (clean_node node mine id e (λ i n c. both i n (node_ids-left i mine rest c))) (
                rw (clean_nodes nodes rest ids f (λ i n c. both i n (node_ids-right i mine rest c)))
                  refl))
        | inr blank ↦ rw blank (clean_nodes nodes found ids (rw blank at h) all)
      ]

-- The same for both engines: nothing is left where all that was found is marked.
rescan_engine :
    (det : Detectors) (engine : Option Analyzer) (rounds : ℕ) (doc dark : CanonicalDocument)
    (ks : List String) (nodes : List Node) (mine found : List SensitiveFinding)
    → Darker doc dark
    → IsKeys doc ks
    → length ks < rounds
    → All HasId nodes
    → with_engine det.tables engine rounds doc nodes mine ≡ ok found
    → Marked (node_ids found) dark
    → (with_engine det.tables engine rounds dark nodes [] ≡ ok []) × Marked (node_ids mine) dark
unfolding with_engine presidio_findings merge
rescan_engine det none rounds doc dark ks nodes mine found d keys enough ids h all =
    (refl, subst (λ fs. Marked (node_ids fs) dark) (sym (ok-injective h)) all)
rescan_engine det (some analyzer) rounds doc dark ks nodes mine found d keys enough ids h all =
    let find = analyzed det.tables analyzer in
    let (extra, e, merged) =
      >>=-eq-ok (scan_nodes find rounds doc nodes) (λ extra. ok (merge mine extra)) h in
    let both : Marked (node_ids (merge mine extra)) dark =
      subst (λ fs. Marked (node_ids fs) dark) (sym (ok-injective merged)) all in
    let clean : scan_nodes find rounds dark nodes ≡ ok [] =
      clean_nodes find (analyzed-Own det.tables analyzer) rounds doc dark ks d keys enough nodes
        extra ids e (λ i n c. both i n (node_ids-merge_extra i mine extra c)) in
    (rw clean refl, λ i n c. both i n (node_ids-merge i mine extra c))

-- After the redaction of the nodes that a scan found something in, a scan finds nothing, with the
-- built-in detector alone or with the other engine, where each node scanned has an id that is not
-- empty and the rounds of `is_redacted` are more than the registry has keys.
pub rescan_is_clean :
    {D : Type 0} (env : Env D) (det : Detectors) (engine : Option Analyzer) (rounds k : ℕ)
    (doc : CanonicalDocument) (ks : List String) (nodes : List Node) (found : List SensitiveFinding)
    (done : Applied D)
    → IsKeys doc ks
    → length ks < rounds
    → All HasId nodes
    → scan det rounds engine doc nodes ≡ ok found
    → apply env k doc (redact_ops (redaction_node_ids found)) ≡ ok done
    → scan det rounds engine done.doc nodes ≡ ok []
unfolding apply redaction_node_ids scan scan_document
rescan_is_clean env det engine rounds k doc ks nodes found done keys enough ids h ran =
    let (mine, scanned, more) =
      >>=-eq-ok (scan_nodes (findings_in det) rounds doc nodes)
        (λ findings. with_engine det.tables engine rounds doc nodes findings) h in
    let (dark, marked_all) = redact_all env (ids_from [] found) k doc [] done ran in
    let all : Marked (node_ids found) done.doc =
      λ i named c. marked_all i named (ids_from_complete [] found i c refl) in
    let (clean, mine_marked) =
      rescan_engine det engine rounds doc done.doc ks nodes mine found dark keys enough ids more
        all in
    let first : scan_nodes (findings_in det) rounds done.doc nodes ≡ ok [] =
      clean_nodes (findings_in det) (findings_in-own det) rounds doc done.doc ks dark keys enough
        nodes mine ids scanned mine_marked in
    rw first clean
