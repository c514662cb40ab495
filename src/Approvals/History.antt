-- ===== src/Approvals/History.antt =====
-- A workflow from its start through any number of decisions.
use cross_format_documment.Base.{
  ℕ, suc, ◌+◌, String, Bool, true, false, not, List, [], ◌∷◌, ◌≡◌, refl, arith, Bool-cases, inl,
  inr, ◌∙◌, sym, ap, subst, false≢true,
}
use cross_format_documment.Base.Lists.{contains, any_of, length}
use cross_format_documment.Base.Text.{strip}
use cross_format_documment.Base.Http.{
  reply, guard, >>=-eq-reply, guard-eq-reply, reply-injective, ◌>>◌,
}
use cross_format_documment.Access.Owner.{Actor, get_owned_document}
use cross_format_documment.Approvals.Rules.{
  ApprovalStep, is_rejected, is_open, overall_state, turn, actionable_approvers, can_act,
}
use cross_format_documment.Approvals.Workflow.{
  Store, WorkflowStatus, StartWorkflowRequest, DecisionRequest, decide, verdict, steps_of,
  new_steps, stripped, start_workflow, begin, is_nil,
}
use cross_format_documment.Approvals.Progress.{waiting, undecided}
use cross_format_documment.Approvals.Order.{
  decide-reply, settle-reply, decide-settles, steps_of-with_steps, verdict-settles,
}
use cross_format_documment.Approvals.Sequence.{
  AllPending, InOrder, all_wait, Ascending, decide_step-InOrder,
}

no_rejected :
    (steps : List ApprovalStep)
    → is_open (overall_state steps) ≡ true
    → any_of (λ t. is_rejected t.status) steps ≡ false
unfolding overall_state
no_rejected [] opened = refl
no_rejected (s ∷ steps) opened = ground (arith, opened)

-- In an ordered workflow, who can act can act by the rule for ordered ones, and no step is rejected.
can_act-turn :
    (n : ℕ) (steps : List ApprovalStep) (a : String)
    → Ascending n steps
    → can_act steps a ≡ true
    → (any_of (λ s. is_rejected s.status) steps ≡ false)
      × (contains a (turn true (waiting steps)) ≡ true)
unfolding can_act actionable_approvers
can_act-turn n [] a up h = cc
can_act-turn n (s ∷ steps) a (b, o, up) h =
    elim (Bool-cases (is_open (overall_state (s ∷ steps)))) [
      | inl opened ↦ (
        no_rejected (s ∷ steps) opened,
        subst (λ x. contains a (turn x (waiting (s ∷ steps))) ≡ true) o (rw opened at h),
      )
      | inr shut ↦ absurd (false≢true (rw shut at h))
    ]

module _ (casefold : String → String) (doc_id : String) where
  decide-InOrder :
      (store : Store) (body : DecisionRequest) (actor : Actor) (now : ℕ) (after : Store)
      (status : WorkflowStatus)
      → decide casefold store doc_id body actor now ≡ reply (after, status)
      → InOrder (steps_of store doc_id)
      → Ascending 0 (steps_of store doc_id)
      → InOrder (steps_of after doc_id) × Ascending 0 (steps_of after doc_id)
  decide-InOrder store body actor now after status h io up =
      let (u, user, _, _, _, c, settled, _) =
        decide-reply casefold store doc_id body actor now (after, status) h in
      let (steps, w, e, same) =
        settle-reply store doc_id body u (strip body.approver) now after status settled in
      let (clear, turn_now) = can_act-turn 0 (steps_of store doc_id) (strip body.approver) up c in
      let here : steps_of after doc_id ≡ steps =
        same doc_id ∙ steps_of-with_steps store doc_id steps in
      subst (λ x. InOrder x × Ascending 0 x) (sym here)
        (decide_step-InOrder (strip body.approver) (verdict body.decision) body.note now 0
          (steps_of store doc_id) (verdict-settles body.decision) io up clear turn_now steps w e)

  -- A number of decisions, one after the other, each by whoever asks for it.
  pub data Decisions : ℕ → Store → Store → Type 0 where
    no_more : {store : Store} → Decisions 0 store store
    and_then :
        {n : ℕ} {store next after : Store} (body : DecisionRequest) (actor : Actor) (now : ℕ)
        (status : WorkflowStatus)
        → decide casefold store doc_id body actor now ≡ reply (next, status)
        → Decisions n next after
        → Decisions (suc n) store after

  Decisions-keep_order :
      {n : ℕ} {store after : Store}
      → Decisions n store after
      → InOrder (steps_of store doc_id)
      → Ascending 0 (steps_of store doc_id)
      → InOrder (steps_of after doc_id)
        × (n + undecided (steps_of after doc_id) ≡ undecided (steps_of store doc_id))
  Decisions-keep_order no_more io up = (io, omega arith)
  Decisions-keep_order {store = store} (and_then {next = next} body actor now status h more) io up =
      let (io', up') = decide-InOrder store body actor now next status h io up in
      let (_, _, _, _, _, _, _, one, _) =
        decide-settles casefold store doc_id body actor now next status h in
      let (io'', count) = Decisions-keep_order more io' up' in (io'', omega (arith, one, count))

  new_steps-AllPending :
      (w : String) (ordered : Bool) (i : ℕ) (names : List String)
      → AllPending (new_steps w ordered i names)
  unfolding new_steps
  new_steps-AllPending w ordered i [] = tt
  new_steps-AllPending w ordered i (name ∷ names) =
      (refl, new_steps-AllPending w ordered (suc i) names)

  new_steps-Ascending :
      (w : String) (i : ℕ) (names : List String) → Ascending i (new_steps w true i names)
  unfolding new_steps
  new_steps-Ascending w i [] = tt
  new_steps-Ascending w i (name ∷ names) = (omega arith, refl, new_steps-Ascending w (suc i) names)

  undecided-new_steps :
      (w : String) (ordered : Bool) (i : ℕ) (names : List String)
      → undecided (new_steps w ordered i names) ≡ length names
  unfolding new_steps
  undecided-new_steps w ordered i [] = refl
  undecided-new_steps w ordered i (name ∷ names) =
      ap suc (undecided-new_steps w ordered (suc i) names)

  -- The steps that `start_workflow` stores; the workflow before it was over, or there was none.
  start_workflow-reply :
      (store : Store) (body : StartWorkflowRequest) (actor : Actor) (uuid : String) (after : Store)
      (status : WorkflowStatus)
      → start_workflow store doc_id body actor uuid ≡ reply (after, status)
      → (is_open (overall_state (steps_of store doc_id)) ≡ false)
        × (steps_of after doc_id ≡ new_steps uuid body.ordered 0 (stripped body.approvers))
  unfolding start_workflow begin
  start_workflow-reply store body actor uuid after status h =
      let named = not (is_nil (stripped body.approvers)) in
      let idle = not (is_open (overall_state (steps_of store doc_id))) in
      let end = reply (begin store doc_id body actor uuid) in
      let (_, _, h1) =
        >>=-eq-reply (get_owned_document store.docs doc_id actor)
          (λ _. guard named 422 >> (guard idle 409 >> end)) h in
      let (_, h2) = guard-eq-reply named 422 (guard idle 409 >> end) h1 in
      let (i, h3) = guard-eq-reply idle 409 end h2 in
      let first = ap (λ p. steps_of p.0 doc_id) (reply-injective h3) in
      let steps = new_steps uuid body.ordered 0 (stripped body.approvers) in
      (ground (arith, i), sym first ∙ steps_of-with_steps store doc_id steps)

  -- A workflow that was started as an ordered one: after any number of decisions, each of which was
  -- taken, its steps are in order (approved ones, at most one rejected, waiting ones), and the
  -- decisions and the waiting steps are together as many as the approvers' names that are not blank.
  pub started_workflow_keeps_order :
      {n : ℕ} (store : Store) (body : StartWorkflowRequest) (actor : Actor) (uuid : String)
      (started after : Store) (status : WorkflowStatus)
      → body.ordered ≡ true
      → start_workflow store doc_id body actor uuid ≡ reply (started, status)
      → Decisions n started after
      → InOrder (steps_of after doc_id)
        × (n + undecided (steps_of after doc_id) ≡ length (stripped body.approvers))
  started_workflow_keeps_order store body actor uuid started after status ordered h run =
      let names = stripped body.approvers in
      let (_, e) = start_workflow-reply store body actor uuid started status h in
      let e' : steps_of started doc_id ≡ new_steps uuid true 0 names =
        e ∙ ap (λ b. new_steps uuid b 0 names) ordered in
      let (io, count) =
        Decisions-keep_order run
          (subst InOrder (sym e') (all_wait (new_steps-AllPending uuid true 0 names)))
          (subst (Ascending 0) (sym e') (new_steps-Ascending uuid 0 names)) in
      (io, count ∙ ap undecided e' ∙ undecided-new_steps uuid true 0 names)
