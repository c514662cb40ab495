-- ===== src/Approvals/Progress.antt =====
-- What the rules give the routes: someone can act while a workflow is open, and a decision of one
-- who can act settles exactly one step.
use cross_format_documment.Base.{
  ℕ, suc, String, eq_refl, false≢true, Option, some, Bool, true, false, List, [], ◌∷◌, ◌≡◌, refl,
  arith, eqb, if◌then◌else◌, Bool-cases, inl, inr,
}
use cross_format_documment.Base.Lists.{contains, keep, any_of, all_of}
use cross_format_documment.Approvals.Rules.{
  Status, ApprovalStep, State, is_pending, is_approved, is_rejected, is_open, overall_state, lowest,
  approvers, turn, actionable_approvers, can_act,
}
use cross_format_documment.Approvals.Workflow.{decided, is_turn_of, decide_step}

abbrev pub waiting : List ApprovalStep → List ApprovalStep
waiting steps = keep (λ s. is_pending s.status) steps

-- how many steps are still to be decided
abbrev pub undecided : List ApprovalStep → ℕ
undecided [] = 0
undecided (s ∷ steps) = if is_pending s.status then suc (undecided steps) else undecided steps

settled_status : (v : Status) → is_pending v ≡ false → is_rejected v ≡ false → is_approved v ≡ true
settled_status Status.pending p r = cc
settled_status Status.approved p r = refl
settled_status Status.rejected p r = cc

-- An open workflow has a pending step.
waiting_of_open :
    (steps : List ApprovalStep)
    → any_of (λ s. is_rejected s.status) steps ≡ false
    → all_of (λ s. is_approved s.status) steps ≡ false
    → (p : ApprovalStep) × (rest : List ApprovalStep) × (waiting steps ≡ p ∷ rest)
waiting_of_open [] r a = cc
waiting_of_open (s ∷ steps) r a = elim (Bool-cases (is_pending s.status)) [
  | inl t ↦ (s, waiting steps, rw t refl)
  | inr f ↦
      let r_tail : any_of (λ x. is_rejected x.status) steps ≡ false = ground (arith, r) in
      let a_tail : all_of (λ x. is_approved x.status) steps ≡ false =
        ground (arith, settled_status s.status f, r, a) in
      let (p, rest, e) = waiting_of_open steps r_tail a_tail in (p, rest, rw f e)
]

-- A step with the lowest index is kept.
lowest_is_there :
    (n : ℕ) (p : ApprovalStep) (rest : List ApprovalStep)
    → lowest p rest ≡ n
    → (a : String) × (contains a (approvers (keep (λ s. eqb s.order_index n) (p ∷ rest))) ≡ true)
unfolding lowest
lowest_is_there n p [] h = (p.approver, ground (arith, h, eq_refl p.approver))
lowest_is_there n p (t ∷ rest) h = elim (Bool-cases (eqb p.order_index n)) [
  | inl here ↦ (p.approver, rw here (rw (eq_refl p.approver) refl))
  | inr there ↦
      let (a, found) = lowest_is_there n t rest (ground (arith, h, there)) in (a, rw there found)
]

turn_has_approver :
    (ordered : Bool) (p : ApprovalStep) (rest : List ApprovalStep)
    → (a : String) × (contains a (turn ordered (p ∷ rest)) ≡ true)
unfolding turn
turn_has_approver false p rest = (p.approver, rw (eq_refl p.approver) refl)
turn_has_approver true p rest = lowest_is_there (lowest p rest) p rest refl

contains-keep :
    (f : ApprovalStep → Bool) (a : String) (steps : List ApprovalStep)
    → contains a (approvers (keep f steps)) ≡ true
    → contains a (approvers steps) ≡ true
contains-keep f a [] h = h
contains-keep f a (s ∷ steps) h = ground (arith, contains-keep f a steps)

contains-turn :
    (ordered : Bool) (a : String) (steps : List ApprovalStep)
    → contains a (turn ordered steps) ≡ true
    → contains a (approvers steps) ≡ true
unfolding turn
contains-turn ordered a [] h = h
contains-turn false a (p ∷ rest) h = h
contains-turn true a (p ∷ rest) h =
    contains-keep (λ s. eqb s.order_index (lowest p rest)) a (p ∷ rest) h

-- Who can act is an approver of a step that waits, in a workflow that is open.
pub can_act-waits :
    (steps : List ApprovalStep) (a : String)
    → can_act steps a ≡ true
    → (is_open (overall_state steps) ≡ true) × (contains a (approvers (waiting steps)) ≡ true)
unfolding can_act actionable_approvers
can_act-waits [] a h = cc
can_act-waits (s ∷ steps) a h = elim (Bool-cases (is_open (overall_state (s ∷ steps)))) [
  | inl opened ↦ (opened, contains-turn s.ordered a (waiting (s ∷ steps)) (rw opened at h))
  | inr shut ↦ absurd (false≢true (rw shut at h))
]

-- Deciding for an approver of a waiting step succeeds, and one step less waits.
pub decide_step-advances :
    (a : String) (status : Status) (remark : Option String) (now : ℕ) (steps : List ApprovalStep)
    → is_pending status ≡ false
    → contains a (approvers (waiting steps)) ≡ true
    → (after : List ApprovalStep) × (w : String) × (decide_step a status remark now steps
        ≡ some (after, w))
      × (suc (undecided after) ≡ undecided steps)
unfolding decide_step
decide_step-advances a status remark now [] v h = cc
decide_step-advances a status remark now (s ∷ steps) v h = elim (Bool-cases (is_turn_of a s)) [
  | inl here ↦
      (decided status remark now s ∷ steps, s.workflow_id, rw here refl, ground (arith, v, here))
  | inr there ↦
      let below : contains a (approvers (waiting steps)) ≡ true = ground (arith, h, there) in
      let (after, w, e, n) = decide_step-advances a status remark now steps v below in
      (s ∷ after, w, rw (there, e) refl, ground (arith, n))
]

-- While a workflow is open there is someone who can act.
pub open_has_approver :
    (steps : List ApprovalStep)
    → overall_state steps ≡ State.in_progress
    → (a : String) × (can_act steps a ≡ true)
unfolding can_act actionable_approvers overall_state
open_has_approver [] h = cc
open_has_approver (s ∷ steps) h =
    let r : any_of (λ x. is_rejected x.status) (s ∷ steps) ≡ false = ground (arith, h) in
    let a : all_of (λ x. is_approved x.status) (s ∷ steps) ≡ false = ground (arith, h) in
    let (p, rest, e) = waiting_of_open (s ∷ steps) r a in
    let (who, turn_of) = turn_has_approver s.ordered p rest in (who, rw (h, e) turn_of)
