-- ===== src/Approvals/Order.antt =====
-- What a decision does to the stored steps, and that the steps of an ordered workflow are decided
-- one after the other.
use cross_format_documment.Base.{
  ℕ, suc, String, ◌==◌, eq_refl, some, true, false, ◌||◌, List, ◌≡◌, refl, arith, Option-cases, ◌⊎◌,
  inl, inr, ◌∙◌, sym, ap,
}
use cross_format_documment.Base.Text.{strip}
use cross_format_documment.Base.Http.{
  reply, fail≢reply, reply-injective, found, guard, found-eq-reply, guard-eq-reply, >>=-eq-reply,
  ◌>>=◌, ◌>>◌,
}
use cross_format_documment.Access.Owner.{Actor, get_owned_document}
use cross_format_documment.Approvals.Rules.{
  ApprovalStep, State, is_pending, is_open, overall_state, can_act,
}
use cross_format_documment.Approvals.Workflow.{
  Store, User, WorkflowStatus, DecisionRequest, decide_step, verdict, steps_of, with_steps, settle,
  log_end, matches, decide, vote, vote_as,
}
use cross_format_documment.Approvals.Decision.{OneDecided, decide_step-some}
use cross_format_documment.Approvals.Progress.{undecided, can_act-waits, decide_step-advances}

pub verdict-settles : (d : String) → is_pending (verdict d) ≡ false
verdict-settles d = ground arith

State-cases :
    (s : State)
    → (s ≡ State.none_yet) ⊎ (s ≡ State.in_progress) ⊎ (s ≡ State.approved) ⊎ (s ≡ State.rejected)
State-cases State.none_yet = inl refl
State-cases State.in_progress = inr (inl refl)
State-cases State.approved = inr (inr (inl refl))
State-cases State.rejected = inr (inr (inr refl))

pub steps_of-log_end :
    (doc_id user_id : String) (steps : List ApprovalStep) (store : Store) (j : String)
    → steps_of (log_end doc_id user_id steps store) j ≡ steps_of store j
unfolding log_end
steps_of-log_end doc_id user_id steps store j = elim (State-cases (overall_state steps)) [
  | inl e ↦ rw (steps_of, log_end, e) refl
  | inr (inl e) ↦ rw (steps_of, log_end, e) refl
  | inr (inr (inl e)) ↦ rw (steps_of, log_end, e) refl
  | inr (inr (inr e)) ↦ rw (steps_of, log_end, e) refl
]

pub steps_of-with_steps :
    (store : Store) (doc_id : String) (steps : List ApprovalStep)
    → steps_of (with_steps store doc_id steps) doc_id ≡ steps
steps_of-with_steps store doc_id steps = rw (steps_of, eq_refl doc_id) refl

steps_of-with_steps_other :
    (store : Store) (doc_id j : String) (steps : List ApprovalStep)
    → (doc_id == j) ≡ false
    → steps_of (with_steps store doc_id steps) j ≡ steps_of store j
steps_of-with_steps_other store doc_id j steps other = rw (steps_of, other) refl

stored :
    (doc_id user_id : String) (steps : List ApprovalStep) (store : Store) (j : String)
    {after : Store}
    → log_end doc_id user_id steps store ≡ after
    → steps_of after j ≡ steps_of store j
stored doc_id user_id steps store j e =
    ap (λ s. steps_of s j) (sym e) ∙ steps_of-log_end doc_id user_id steps store j

-- The steps after `settle`.
pub settle-reply :
    (store : Store) (doc_id : String) (body : DecisionRequest) (user_id approver : String) (now : ℕ)
    (after : Store) (status : WorkflowStatus)
    → settle store doc_id body user_id approver now ≡ reply (after, status)
    → (steps : List ApprovalStep) × (w : String) × (decide_step approver
          (verdict body.decision)
          body.note
          now
          (steps_of store doc_id)
        ≡ some (steps, w))
      × ((j : String) → steps_of after j ≡ steps_of (with_steps store doc_id steps) j)
unfolding settle
settle-reply store doc_id body user_id approver now after status h =
    elim (Option-cases
      (decide_step approver (verdict body.decision) body.note now (steps_of store doc_id))) [
        | inl missing ↦ absurd (fail≢reply (rw (settle, missing) at h))
        | inr ((steps, w), e) ↦ (
          steps,
          w,
          e,
          λ j.
              stored doc_id user_id steps _ j
                (ap (λ p. p.0) (reply-injective (rw (settle, e) at h))),
        )
      ]

vote-reply :
    (casefold : String → String) (store : Store) (doc_id : String) (body : DecisionRequest)
    (now : ℕ) (user_id : String) (user : User) (r : Store × WorkflowStatus)
    → vote casefold store doc_id body now user_id user ≡ reply r
    → (matches casefold user (strip body.approver) ≡ true)
      × (can_act (steps_of store doc_id) (strip body.approver) ≡ true)
      × (settle store doc_id body user_id (strip body.approver) now ≡ reply r)
unfolding vote
vote-reply casefold store doc_id body now user_id user r h =
    let a = is_open (overall_state (steps_of store doc_id)) in
    let b = matches casefold user (strip body.approver) in
    let c = can_act (steps_of store doc_id) (strip body.approver) in
    let end = settle store doc_id body user_id (strip body.approver) now in
    let (_, h5) = guard-eq-reply a 409 (guard b 403 >> (guard c 409 >> end)) h in
    let (m, h6) = guard-eq-reply b 403 (guard c 409 >> end) h5 in
    let (t, h7) = guard-eq-reply c 409 end h6 in (m, t, h7)

-- What holds where `decide` replies.
pub decide-reply :
    (casefold : String → String) (store : Store) (doc_id : String) (body : DecisionRequest)
    (actor : Actor) (now : ℕ) (r : Store × WorkflowStatus)
    → decide casefold store doc_id body actor now ≡ reply r
    → (user_id : String) × (user : User) × (actor.user_id ≡ some user_id)
      × (store.users user_id ≡ some user)
      × (matches casefold user (strip body.approver) ≡ true)
      × (can_act (steps_of store doc_id) (strip body.approver) ≡ true)
      × (settle store doc_id body user_id (strip body.approver) now ≡ reply r)
      × (body.decision == "approve" || body.decision == "reject" ≡ true)
unfolding decide vote_as
decide-reply casefold store doc_id body actor now r h =
    let test = body.decision == "approve" || body.decision == "reject" in
    let rest = λ (u : String). vote_as casefold store doc_id body now u in
    let (_, _, h1) =
      >>=-eq-reply (get_owned_document store.docs doc_id actor)
        (λ _. guard test 422 >> (found actor.user_id 403 >>= rest)) h in
    let (legal, h2) = guard-eq-reply test 422 (found actor.user_id 403 >>= rest) h1 in
    let (u, has_user, h3) = found-eq-reply actor.user_id 403 rest h2 in
    let (user, known, h4) =
      found-eq-reply (store.users u) 401 (λ x. vote casefold store doc_id body now u x) h3 in
    let (m, c, h7) = vote-reply casefold store doc_id body now u user r h4 in
    (u, user, has_user, known, m, c, h7, legal)

-- A decision that is taken decides one of the document's steps, the first pending one of the
-- approver who is named: "approve" makes it approved and "reject" rejected, with the note and the
-- time of the decision, and nothing else of it changes. The other steps and the steps of other
-- documents stay, so one step less waits. It is taken by a user whose email or name, but for case,
-- is the approver, and whose turn it is.
pub decide-settles :
    (casefold : String → String) (store : Store) (doc_id : String) (body : DecisionRequest)
    (actor : Actor) (now : ℕ) (after : Store) (status : WorkflowStatus)
    → decide casefold store doc_id body actor now ≡ reply (after, status)
    → (user_id : String) × (user : User) × (actor.user_id ≡ some user_id)
      × (store.users user_id ≡ some user)
      × (matches casefold user (strip body.approver) ≡ true)
      × (can_act (steps_of store doc_id) (strip body.approver) ≡ true)
      × OneDecided body now (steps_of store doc_id) (steps_of after doc_id)
      × (suc (undecided (steps_of after doc_id)) ≡ undecided (steps_of store doc_id))
      × ((j : String) → (doc_id == j) ≡ false → steps_of after j ≡ steps_of store j)
decide-settles casefold store doc_id body actor now after status h =
    let (u, user, has_user, known, m, c, settled, legal) =
      decide-reply casefold store doc_id body actor now (after, status) h in
    let (steps, w, e, same) =
      settle-reply store doc_id body u (strip body.approver) now after status settled in
    let (_, waits) = can_act-waits (steps_of store doc_id) (strip body.approver) c in
    let (steps', w', e', less) =
      decide_step-advances (strip body.approver) (verdict body.decision) body.note now
        (steps_of store doc_id) (verdict-settles body.decision) waits in
    let here : steps_of after doc_id ≡ steps =
      same doc_id ∙ steps_of-with_steps store doc_id steps in
    let agree : steps ≡ steps' = cc in
    (
      u,
      user,
      has_user,
      known,
      m,
      c,
      rw here (decide_step-some body now (steps_of store doc_id) steps w legal e),
      rw (here ∙ agree) less,
      λ j other. same j ∙ steps_of-with_steps_other store doc_id j steps other,
    )
