-- ===== src/Approvals/Rules.antt =====
-- The rules of services/collab/approvals.py (backend/src/docos): the state of a workflow, and who
-- may act.
use cross_format_documment.Base.{
  ℕ, String, Option, Bool, true, false, List, [], ◌∷◌, min, eqb, if◌then◌else◌,
}
use cross_format_documment.Base.Lists.{contains, any_of, all_of, keep}

-- The three values that the column `status` is given.
pub data Status : Type 0 where
  pending : Status
  approved : Status
  rejected : Status

abbrev pub is_pending : Status → Bool
is_pending Status.pending = true
is_pending _ = false

abbrev pub is_approved : Status → Bool
is_approved Status.approved = true
is_approved _ = false

abbrev pub is_rejected : Status → Bool
is_rejected Status.rejected = true
is_rejected _ = false

pub record ApprovalStep : Type 0 where
  pub workflow_id : String
  pub order_index : ℕ
  pub approver : String
  pub ordered : Bool
  pub status : Status
  pub note : Option String
  pub decided_at : Option ℕ

-- What `overall_state` returns: "none", "in_progress", "approved" or "rejected".
pub data State : Type 0 where
  none_yet : State
  in_progress : State
  approved : State
  rejected : State

-- `state == "in_progress"`, which is also `state not in ("none", "approved", "rejected")`
abbrev pub is_open : State → Bool
is_open State.in_progress = true
is_open _ = false

unfoldable pub overall_state : List ApprovalStep → State
overall_state [] = State.none_yet
overall_state (s ∷ steps) =
    if any_of (λ t. is_rejected t.status) (s ∷ steps)
    then State.rejected
    else if all_of (λ t. is_approved t.status) (s ∷ steps)
    then State.approved
    else State.in_progress

-- `min(s.order_index for s in steps)` of a list that is not empty: its head and its tail
unfoldable pub lowest : ApprovalStep → List ApprovalStep → ℕ
lowest s [] = s.order_index
lowest s (t ∷ steps) = min s.order_index (lowest t steps)

abbrev pub approvers : List ApprovalStep → List String
approvers [] = []
approvers (s ∷ steps) = s.approver ∷ approvers steps

-- the approvers among the pending steps, by the first step's `ordered`
unfoldable pub turn : Bool → List ApprovalStep → List String
unfolding lowest
turn ordered [] = []
turn false (p ∷ rest) = approvers (p ∷ rest)
turn true (p ∷ rest) = approvers (keep (λ s. eqb s.order_index (lowest p rest)) (p ∷ rest))

unfoldable pub actionable_approvers : List ApprovalStep → List String
unfolding overall_state turn
actionable_approvers [] = []
actionable_approvers (s ∷ steps) =
    if is_open (overall_state (s ∷ steps))
    then turn s.ordered (keep (λ t. is_pending t.status) (s ∷ steps))
    else []

unfoldable pub can_act : List ApprovalStep → String → Bool
unfolding actionable_approvers
can_act steps approver = contains approver (actionable_approvers steps)
