-- ===== src/Approvals/Decision.antt =====
-- What one decision changes in the list of steps (`decide` of api/routes_collab.py,
-- backend/src/docos).
use cross_format_documment.Base.{
  ℕ, String, ◌==◌, none, some, true, false, ◌||◌, List, [], ◌∷◌, ◌++◌, ◌≡◌, ◌⊎◌, refl, arith, ap,
  sym, ◌∙◌, Bool-cases, Option-cases, inl, inr, text_eq,
}
use cross_format_documment.Base.Lists.{contains}
use cross_format_documment.Base.Text.{strip}
use cross_format_documment.Approvals.Rules.{Status, ApprovalStep, is_pending, approvers}
use cross_format_documment.Approvals.Workflow.{
  DecisionRequest, decide_step, decided, is_turn_of, verdict,
}
use cross_format_documment.Approvals.Progress.{waiting}

-- The step `t` is the pending step `s` of the approver after the decision.
pub record Decides (body : DecisionRequest) (now : ℕ) (s t : ApprovalStep) : Type 0 where
  pub asked : s.approver ≡ strip body.approver
  pub waited : s.status ≡ Status.pending
  pub ruled :
      ((body.decision ≡ "approve") × (t.status ≡ Status.approved))
      ⊎ ((body.decision ≡ "reject") × (t.status ≡ Status.rejected))
  pub noted : t.note ≡ body.note
  pub dated : t.decided_at ≡ some now
  pub same_workflow : t.workflow_id ≡ s.workflow_id
  pub same_index : t.order_index ≡ s.order_index
  pub same_approver : t.approver ≡ s.approver
  pub same_order : t.ordered ≡ s.ordered

-- One step of a list is decided, the first one of the approver that waits, and the others stay.
pub record OneDecided (body : DecisionRequest) (now : ℕ) (steps after : List ApprovalStep)
    : Type 0 where
  pub before : List ApprovalStep
  pub later : List ApprovalStep
  pub old : ApprovalStep
  pub new : ApprovalStep
  pub there : steps ≡ before ++ old ∷ later
  pub then_there : after ≡ before ++ new ∷ later
  pub decides : Decides body now old new
  pub first : contains (strip body.approver) (approvers (waiting before)) ≡ false

pending_status : (v : Status) → is_pending v ≡ true → v ≡ Status.pending
pending_status Status.pending h = refl
pending_status Status.approved h = cc
pending_status Status.rejected h = cc

turn-approver :
    (a : String) (s : ApprovalStep)
    → is_turn_of a s ≡ true
    → (s.approver ≡ a) × (s.status ≡ Status.pending)
turn-approver a s h = elim (Bool-cases (s.approver == a)) [
  | inl same ↦ (text_eq s.approver a same, pending_status s.status (ground (arith, h, same)))
  | inr other ↦ cc
]

verdict-ruled :
    (d : String)
    → d == "approve" || d == "reject" ≡ true
    → ((d ≡ "approve") × (verdict d ≡ Status.approved))
      ⊎ ((d ≡ "reject") × (verdict d ≡ Status.rejected))
verdict-ruled d h = elim (Bool-cases (d == "approve")) [
  | inl same ↦ inl (text_eq d "approve" same, rw same refl)
  | inr other ↦ inr (text_eq d "reject" (ground (arith, h, other)), rw other refl)
]

-- Where a step is decided, it is the one.
pub decide_step-some :
    (body : DecisionRequest) (now : ℕ) (steps after : List ApprovalStep) (w : String)
    → body.decision == "approve" || body.decision == "reject" ≡ true
    → decide_step (strip body.approver) (verdict body.decision) body.note now steps
      ≡ some (after, w)
    → OneDecided body now steps after
unfolding decide_step
decide_step-some body now [] after w legal h = cc
decide_step-some body now (s ∷ steps) after w legal h =
    elim (Bool-cases (is_turn_of (strip body.approver) s)) [
      | inl here ↦
          let (asked, waited) = turn-approver (strip body.approver) s here in
          record {
            before = [];
            later = steps;
            old = s;
            new = decided (verdict body.decision) body.note now s;
            there = refl;
            then_there = ap (λ x. x.0) (sym (some-injective (rw here at h)));
            decides = record {
              asked = asked;
              waited = waited;
              ruled = verdict-ruled body.decision legal;
              noted = refl;
              dated = refl;
              same_workflow = refl;
              same_index = refl;
              same_approver = refl;
              same_order = refl;
            };
            first = refl;
          }
      | inr there ↦
          elim (Option-cases
            (decide_step (strip body.approver) (verdict body.decision) body.note now steps)) [
              | inl missing ↦ absurd (none≢some (rw (there, missing) at h))
              | inr ((rest, w'), e) ↦
                  let one = decide_step-some body now steps rest w' legal e in
                  let last : s ∷ rest ≡ after =
                    ap (λ x. x.0) (some-injective (rw (there, e) at h)) in
                  record {
                    before = s ∷ one.before;
                    later = one.later;
                    old = one.old;
                    new = one.new;
                    there = ap (λ xs. s ∷ xs) one.there;
                    then_there = sym last ∙ ap (λ xs. s ∷ xs) one.then_there;
                    decides = one.decides;
                    first = ground (arith, there, one.first);
                  }
            ]
    ]
  where
    some-injective : {a b : List ApprovalStep × String} → some a ≡ some b → a ≡ b
    some-injective h = cc

    none≢some : {a : List ApprovalStep × String} → none ≡ some a → ⊥
    none≢some h = cc
