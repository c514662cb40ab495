-- ===== src/Approvals/Sequence.antt =====
-- The steps of an ordered workflow are decided one after the other.
use cross_format_documment.Base.{
  ℕ, suc, ◌≤◌, ◌<◌, String, ◌==◌, Option, some, true, false, List, [], ◌∷◌, ◌≡◌, refl, arith, eqb,
  inl, inr, sym, subst, Option-cases, false≢true,
}
use cross_format_documment.Base.Lists.{contains, keep, any_of, All}
use cross_format_documment.Approvals.Rules.{
  Status, ApprovalStep, is_pending, is_rejected, turn, lowest,
}
use cross_format_documment.Approvals.Workflow.{decided, decide_step}
use cross_format_documment.Approvals.Progress.{waiting}

-- Every step waits.
abbrev pub AllPending : List ApprovalStep → Type 0
AllPending steps = All (λ s. s.status ≡ Status.pending) steps

-- First the approved steps, then at most one that was rejected, then those that wait.
pub data InOrder : List ApprovalStep → Type 0 where
  all_wait : {steps : List ApprovalStep} → AllPending steps → InOrder steps
  approved_first :
      {s : ApprovalStep} {steps : List ApprovalStep}
      → s.status ≡ Status.approved
      → InOrder steps
      → InOrder (s ∷ steps)
  rejected_here :
      {s : ApprovalStep} {steps : List ApprovalStep}
      → s.status ≡ Status.rejected
      → AllPending steps
      → InOrder (s ∷ steps)

-- The indices rise, from a bound on, and every step belongs to an ordered workflow.
abbrev pub Ascending : ℕ → List ApprovalStep → Type 0
Ascending n [] = Unit
Ascending n (s ∷ steps) =
    (n ≤ s.order_index) × (s.ordered ≡ true) × Ascending (suc s.order_index) steps

-- Above a bound the lowest index is above it too, and no step has an index below.
lowest_above :
    (n : ℕ) (p : ApprovalStep) (rest : List ApprovalStep)
    → Ascending n (p ∷ rest)
    → lowest p rest ≡ p.order_index
unfolding lowest
lowest_above n p [] a = refl
lowest_above n p (t ∷ rest) (b, o, c) =
    rw (lowest_above (suc p.order_index) t rest c) (let (q, _, _) = c in omega (arith, q))

waiting_of_pending : (steps : List ApprovalStep) → AllPending steps → waiting steps ≡ steps
waiting_of_pending [] a = refl
waiting_of_pending (s ∷ steps) (p, a) = ground (arith, p, waiting_of_pending steps a)

-- Nothing above a bound has an index below it.
keep_below :
    (n m : ℕ) (steps : List ApprovalStep)
    → Ascending n steps
    → m < n
    → keep (λ s. eqb s.order_index m) steps ≡ []
keep_below n m [] a h = refl
keep_below n m (s ∷ steps) (b, o, c) h =
    let below = keep_below (suc s.order_index) m steps c (omega (arith, b, h)) in
    ground (arith, below, b, h)

-- Where every step waits it is the first one's turn only.
turn_of_first :
    (n : ℕ) (a : String) (p : ApprovalStep) (rest : List ApprovalStep)
    → Ascending n (p ∷ rest)
    → contains a (turn true (p ∷ rest)) ≡ true
    → (p.approver == a) ≡ true
unfolding turn
turn_of_first n a p rest (b, o, c) h =
    let first = lowest_above n p rest (b, o, c) in
    let only = keep_below (suc p.order_index) (lowest p rest) rest c (omega (arith, first)) in
    ground (arith, h, only, first)

first_decided :
    (status : Status) (remark : Option String) (now n : ℕ) (s : ApprovalStep)
    (steps : List ApprovalStep)
    → is_pending status ≡ false
    → AllPending steps
    → Ascending n (s ∷ steps)
    → InOrder (decided status remark now s ∷ steps)
      × Ascending n (decided status remark now s ∷ steps)
first_decided Status.pending remark now n s steps v ps up = cc
first_decided Status.approved remark now n s steps v ps up = (approved_first refl (all_wait ps), up)
first_decided Status.rejected remark now n s steps v ps up = (rejected_here refl ps, up)

pub decide_step-InOrder :
    (a : String) (status : Status) (remark : Option String) (now n : ℕ) (steps : List ApprovalStep)
    → is_pending status ≡ false
    → InOrder steps
    → Ascending n steps
    → any_of (λ s. is_rejected s.status) steps ≡ false
    → contains a (turn true (waiting steps)) ≡ true
    → (after : List ApprovalStep) (w : String)
    → decide_step a status remark now steps ≡ some (after, w)
    → InOrder after × Ascending n after
unfolding decide_step
decide_step-InOrder a status remark now n [] v (all_wait p) up r c after w e = cc
decide_step-InOrder a status remark now n (s ∷ steps) v (all_wait (p, ps)) up r c after w e =
    let alone = waiting_of_pending (s ∷ steps) (p, ps) in
    let turn_now = subst (λ x. contains a (turn true x) ≡ true) alone c in
    let named = turn_of_first n a s steps up turn_now in
    let same : decided status remark now s ∷ steps ≡ after = ground (arith, e, named, p) in
    subst (λ x. InOrder x × Ascending n x) same (first_decided status remark now n s steps v ps up)
decide_step-InOrder a status remark now n (s ∷ steps) v (approved_first done io) (b, o, up) r c
      after w e =
    let below : contains a (turn true (waiting steps)) ≡ true = rw done at c in
    let clear : any_of (λ x. is_rejected x.status) steps ≡ false = rw done at r in
    elim (Option-cases (decide_step a status remark now steps)) [
      | inl missing ↦ absurd (ground (arith, e, missing, done))
      | inr ((x, w'), found) ↦
          let (io', up') =
            decide_step-InOrder a status remark now (suc s.order_index) steps v io up clear below x
              w' found in
          let same : s ∷ x ≡ after = ground (arith, e, found, done) in
          subst (λ y. InOrder y × Ascending n y) same (approved_first done io', (b, o, up'))
    ]
decide_step-InOrder a status remark now n (s ∷ steps) v (rejected_here rj ps) up r c after w e =
    absurd (false≢true (sym (rw rj at r)))
