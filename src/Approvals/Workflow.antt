-- ===== src/Approvals/Workflow.antt =====
-- The routes of api/routes_approvals.py (backend/src/docos): starting a workflow and deciding a step.
use cross_format_documment.Base.{
  ℕ, suc, String, ◌==◌, Option, none, some, Bool, true, false, not, ◌||◌, List, [], ◌∷◌, ◌++◌,
  if◌then◌else◌,
}
use cross_format_documment.Base.Maps.{Map, put}
use cross_format_documment.Base.Http.{Http, reply, fail, found, guard, ◌>>=◌, ◌>>◌}
use cross_format_documment.Base.Text.{strip}
use cross_format_documment.Access.Owner.{Actor, Document, get_owned_document}
use cross_format_documment.Approvals.Rules.{
  Status, ApprovalStep, State, is_pending, is_open, overall_state, actionable_approvers, can_act,
}

pub record User : Type 0 where
  pub email : String
  pub name : Option String

-- An entry of the audit log: the document, the event's name, who caused it, the workflow, and the
-- approvers it names.
pub record Event : Type 0 where
  pub document_id : String
  pub action : String
  pub actor : String
  pub workflow_id : Option String
  pub approvers : List String

-- The rows that the routes read and write; the steps of a document are in the order of their index.
pub record Store : Type 0 where
  pub docs : Map Document
  pub users : Map User
  pub steps : Map (List ApprovalStep)
  pub events : List Event

pub record WorkflowStatus : Type 0 where
  pub doc_id : String
  pub workflow_id : Option String
  pub state : State
  pub ordered : Bool
  pub steps : List ApprovalStep
  pub current_approvers : List String

pub record StartWorkflowRequest : Type 0 where
  pub approvers : List String
  pub ordered : Bool

pub record DecisionRequest : Type 0 where
  pub approver : String
  pub decision : String
  pub note : Option String

-- `_steps`: none where the document has no rows
abbrev pub steps_of : Store → String → List ApprovalStep
steps_of store doc_id = elim (store.steps doc_id) [ none ↦ [] | some steps ↦ steps ]

abbrev pub with_steps : Store → String → List ApprovalStep → Store
with_steps store doc_id steps = record {
  docs = store.docs;
  users = store.users;
  steps = put store.steps doc_id steps;
  events = store.events;
}

-- `record_event`: the log's newest entry stands last
abbrev pub record_event : Store → Event → Store
record_event store e = record {
  docs = store.docs;
  users = store.users;
  steps = store.steps;
  events = store.events ++ (e ∷ []);
}

abbrev first_workflow : List ApprovalStep → Option String
first_workflow [] = none
first_workflow (s ∷ steps) = some s.workflow_id

abbrev first_ordered : List ApprovalStep → Bool
first_ordered [] = true
first_ordered (s ∷ steps) = s.ordered

unfoldable pub status_of : String → List ApprovalStep → WorkflowStatus
unfolding overall_state actionable_approvers
status_of doc_id steps = record {
  doc_id = doc_id;
  workflow_id = first_workflow steps;
  state = overall_state steps;
  ordered = first_ordered steps;
  steps = steps;
  current_approvers = actionable_approvers steps;
}

unfoldable pub get_workflow : Store → String → Actor → Http WorkflowStatus
unfolding get_owned_document status_of
get_workflow store doc_id actor = do
  _ ← get_owned_document store.docs doc_id actor
  reply (status_of doc_id (steps_of store doc_id))

-- `[a.strip() for a in approvers if a.strip()]`
unfoldable pub stripped : List String → List String
unfolding strip
stripped [] = []
stripped (a ∷ names) = let rest = stripped names in if strip a == "" then rest else strip a ∷ rest

-- The pending steps of a new workflow, from an index on.
unfoldable pub new_steps : String → Bool → ℕ → List String → List ApprovalStep
new_steps workflow_id ordered i [] = []
new_steps workflow_id ordered i (name ∷ names) =
    record {
      workflow_id = workflow_id;
      order_index = i;
      approver = name;
      ordered = ordered;
      status = Status.pending;
      note = none;
      decided_at = none;
    }
    ∷ new_steps workflow_id ordered (suc i) names

-- `actor.user_id or actor.session_id`
abbrev pub actor_name : Actor → String
actor_name actor = elim actor.user_id [
  | none ↦ actor.session_id
  | some u ↦ if u == "" then actor.session_id else u
]

abbrev pub is_nil : List String → Bool
is_nil [] = true
is_nil (x ∷ xs) = false

-- What `start_workflow` stores and answers once its tests have passed: the prior steps are deleted,
-- the new ones added. `uuid` is the identifier that is drawn for the workflow.
unfoldable pub begin :
    Store → String → StartWorkflowRequest → Actor → String → Store × WorkflowStatus
unfolding stripped new_steps status_of
begin store doc_id body actor uuid =
    let names = stripped body.approvers in
    let steps = new_steps uuid body.ordered 0 names in
    let started : Event = record {
      document_id = doc_id;
      action = "approval.started";
      actor = actor_name actor;
      workflow_id = some uuid;
      approvers = names;
    } in
    (record_event (with_steps store doc_id steps) started, status_of doc_id steps)

unfoldable pub start_workflow :
    Store → String → StartWorkflowRequest → Actor → String → Http (Store × WorkflowStatus)
unfolding get_owned_document overall_state stripped begin
start_workflow store doc_id body actor uuid = do
  _ ← get_owned_document store.docs doc_id actor
  guard (not (is_nil (stripped body.approvers))) 422
  guard (not (is_open (overall_state (steps_of store doc_id)))) 409
  reply (begin store doc_id body actor uuid)

-- the status that a decision gives: "approve" or, as it was tested, "reject"
abbrev pub verdict : String → Status
verdict decision = if decision == "approve" then Status.approved else Status.rejected

abbrev pub decided : Status → Option String → ℕ → ApprovalStep → ApprovalStep
decided status remark now s = record {
  workflow_id = s.workflow_id;
  order_index = s.order_index;
  approver = s.approver;
  ordered = s.ordered;
  status = status;
  note = remark;
  decided_at = some now;
}

abbrev pub is_turn_of : String → ApprovalStep → Bool
is_turn_of approver s = if s.approver == approver then is_pending s.status else false

-- The first pending step of an approver, which `next` finds, decided in place, and the workflow it
-- belongs to; `none` is the `StopIteration` of a list without one.
unfoldable pub decide_step :
    String → Status → Option String → ℕ → List ApprovalStep → Option (List ApprovalStep × String)
decide_step approver status remark now [] = none
decide_step approver status remark now (s ∷ steps) =
    let rest = decide_step approver status remark now steps in
    if is_turn_of approver s
    then some (decided status remark now s ∷ steps, s.workflow_id)
    else elim rest [ none ↦ none | some (after, w) ↦ some (s ∷ after, w) ]

-- `f"approval.{status}"`, of a verdict
abbrev decision_event : Status → String
decision_event Status.approved = "approval.approved"
decision_event Status.rejected = "approval.rejected"
decision_event Status.pending = "approval.pending"

-- The second event, where the workflow is over.
unfoldable pub log_end : String → String → List ApprovalStep → Store → Store
unfolding overall_state
log_end doc_id user_id steps store =
    let over : String → Store = λ action. record_event store (record {
      document_id = doc_id;
      action = action;
      actor = user_id;
      workflow_id = first_workflow steps;
      approvers = [];
    }) in
    elim (overall_state steps) [
      | State.approved ↦ over "approval.workflow_approved"
      | State.rejected ↦ over "approval.workflow_rejected"
      | State.none_yet ↦ store
      | State.in_progress ↦ store
    ]

-- What follows the tests of `decide`: the step is decided, and the log gets its events. The status
-- 500 is the answer to an exception.
unfoldable pub settle :
    Store → String → DecisionRequest → String → String → ℕ → Http (Store × WorkflowStatus)
unfolding decide_step log_end status_of
settle store doc_id body user_id approver now =
    let status = verdict body.decision in
    elim (decide_step approver status body.note now (steps_of store doc_id)) [
      | none ↦ fail 500
      | some (steps, w) ↦
          let event : Event = record {
            document_id = doc_id;
            action = decision_event status;
            actor = user_id;
            workflow_id = some w;
            approvers = approver ∷ [];
          } in
          reply (
            log_end doc_id user_id steps (record_event (with_steps store doc_id steps) event),
            status_of doc_id steps,
          )
    ]

module _ (casefold : String → String) where
  -- `approver.casefold() in identities`; Python's tables of letters are left open.
  unfoldable pub matches : User → String → Bool
  unfolding strip
  matches user approver =
      let named : Bool = elim user.name [
        | none ↦ false
        | some name ↦ if name == "" then false else casefold (strip name) == casefold approver
      ] in
      casefold user.email == casefold approver || named

  -- `decide` from the loaded user on.
  unfoldable pub vote :
      Store → String → DecisionRequest → ℕ → String → User → Http (Store × WorkflowStatus)
  unfolding overall_state can_act matches settle strip
  vote store doc_id body now user_id user = do
    guard (is_open (overall_state (steps_of store doc_id))) 409
    guard (matches user (strip body.approver)) 403
    guard (can_act (steps_of store doc_id) (strip body.approver)) 409
    settle store doc_id body user_id (strip body.approver) now

  -- `decide` from the actor's user id on.
  unfoldable pub vote_as :
      Store → String → DecisionRequest → ℕ → String → Http (Store × WorkflowStatus)
  unfolding vote
  vote_as store doc_id body now user_id = do
    user ← found (store.users user_id) 401
    vote store doc_id body now user_id user

  -- `now` is the time that is written into the step.
  unfoldable pub decide :
      Store → String → DecisionRequest → Actor → ℕ → Http (Store × WorkflowStatus)
  unfolding get_owned_document vote_as
  decide store doc_id body actor now = do
    _ ← get_owned_document store.docs doc_id actor
    guard (body.decision == "approve" || body.decision == "reject") 422
    user_id ← found actor.user_id 403
    vote_as store doc_id body now user_id
