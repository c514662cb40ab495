-- ===== src/Approvals/Tests.antt =====
-- An ordered workflow of two approvers, and the theorems at it.
use cross_format_documment.Base.{
  suc, ◌+◌, String, ◌==◌, none, some, true, false, [], ◌∷◌, ◌≡◌, refl,
}
use cross_format_documment.Base.Lists.{length}
use cross_format_documment.Base.Maps.{empty, put}
use cross_format_documment.Base.Text.{strip}
use cross_format_documment.Base.Http.{Http, reply, fail}
use cross_format_documment.Access.Owner.{Actor, Document}
use cross_format_documment.Approvals.Rules.{State, overall_state, can_act}
use cross_format_documment.Approvals.Workflow.{
  Store, User, StartWorkflowRequest, DecisionRequest, WorkflowStatus, start_workflow, begin, decide,
  steps_of, stripped, matches, settle,
}
use cross_format_documment.Approvals.Progress.{undecided, open_has_approver}
use cross_format_documment.Approvals.Decision.{OneDecided}
use cross_format_documment.Approvals.Order.{decide-settles}
use cross_format_documment.Approvals.Sequence.{InOrder}
use cross_format_documment.Approvals.History.{no_more, and_then, started_workflow_keeps_order}

-- The texts of the tests are in lower case.
abbrev lower : String → String
lower s = s

abbrev contract : Document
contract = record {
  id = "d";
  owner_session_id = some "s";
  owner_user_id = some "u";
  current_version_id = some "v";
}

abbrev ann : Actor
ann = record { session_id = "s"; user_id = some "u" }

abbrev office : Store
office = record {
  docs = put empty "d" contract;
  users = put empty "u" (record { email = "ann@x"; name = some "ann" });
  steps = empty;
  events = [];
}

abbrev request : StartWorkflowRequest
request = record { approvers = " ann " ∷ "  " ∷ "bob" ∷ []; ordered = true }

abbrev yes : DecisionRequest
yes = record { approver = "ann"; decision = "approve"; note = none }

abbrev started : Store × WorkflowStatus
unfolding begin
started = begin office "d" request ann "w"

abbrev signed : Store × WorkflowStatus
unfolding settle
signed = reply_of (settle started.0 "d" yes "u" "ann" 7)
  where
    reply_of : Http (Store × WorkflowStatus) → Store × WorkflowStatus
    reply_of (reply p) = p
    reply_of (fail c) = started

it_starts : start_workflow office "d" request ann "w" ≡ reply started
unfolding start_workflow
it_starts = refl

ann_decides : decide lower started.0 "d" yes ann 7 ≡ reply signed
unfolding decide started
ann_decides = refl

-- It is not the second one's turn, even under the second one's name.
bob_waits :
    decide lower
      (record {
        docs = started.0.docs;
        users = put empty "u" (record { email = "bob"; name = none });
        steps = started.0.steps;
        events = [];
      })
      "d"
      (record { approver = "bob"; decision = "approve"; note = none })
      ann
      7
    ≡ fail 409
unfolding decide started
bob_waits = refl

it_is_open : overall_state (steps_of started.0 "d") ≡ State.in_progress
unfolding overall_state started
it_is_open = refl

open_has_approver_example : (a : String) × (can_act (steps_of started.0 "d") a ≡ true)
open_has_approver_example = open_has_approver (steps_of started.0 "d") it_is_open

decide-settles_example :
    (user_id : String) × (user : User) × (ann.user_id ≡ some user_id)
    × (started.0.users user_id ≡ some user)
    × (matches lower user (strip "ann") ≡ true)
    × (can_act (steps_of started.0 "d") (strip "ann") ≡ true)
    × OneDecided yes 7 (steps_of started.0 "d") (steps_of signed.0 "d")
    × (suc (undecided (steps_of signed.0 "d")) ≡ undecided (steps_of started.0 "d"))
    × ((j : String) → ("d" == j) ≡ false → steps_of signed.0 j ≡ steps_of started.0 j)
decide-settles_example = decide-settles lower started.0 "d" yes ann 7 signed.0 signed.1 ann_decides

started_workflow_keeps_order_example :
    InOrder (steps_of signed.0 "d")
    × (1 + undecided (steps_of signed.0 "d") ≡ length (stripped (" ann " ∷ "  " ∷ "bob" ∷ [])))
started_workflow_keeps_order_example =
    started_workflow_keeps_order lower "d" {n = 1} office request ann "w" started.0 signed.0
      started.1 refl it_starts (and_then yes ann 7 signed.1 ann_decides no_more)
