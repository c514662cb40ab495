-- ===== src/Plans/Portal.antt =====
-- Who may create portal links.
use cross_format_documment.Base.{
  String, ◌==◌, some, Bool, true, false, not, ◌≡◌, ◌⊎◌, inl, inr, refl, if◌then◌else◌, Option-cases,
  Bool-cases, subst, text-cases, neq_sym,
}
use cross_format_documment.Base.Maps.{Map}
use cross_format_documment.Base.Http.{reply, fail}
use cross_format_documment.Access.Owner.{Actor}
use cross_format_documment.Plans.{
  Subscription, plans, plan_by_id, plan_of, effective_plan, has_portal_access,
  require_portal_access,
}

-- A subscription that is active and of one of the paid plans.
abbrev pub is_paid : Subscription → Bool
is_paid sub =
    if sub.status == "active"
    then (if sub.plan == "pro" then true else sub.plan == "team")
    else false

abbrev HasPaidLinks : String → Type 0
HasPaidLinks plan_id =
    (plan_by_id plans plan_id).portal_links ≡ (if plan_id == "pro" then true else plan_id == "team")

paid_plans_have_links : (plan_id : String) → HasPaidLinks plan_id
unfolding plan_by_id
paid_plans_have_links plan_id = elim (text-cases "free" plan_id) [
  | inl e ↦ subst HasPaidLinks e refl
  | inr f ↦ elim (text-cases "pro" plan_id) [
    | inl e ↦ subst HasPaidLinks e refl
    | inr p ↦ elim (text-cases "team" plan_id) [
      | inl e ↦ subst HasPaidLinks e refl
      | inr t ↦ rw (plan_by_id, f, p, t, neq_sym "pro" plan_id p, neq_sym "team" plan_id t) refl
    ]
  ]
]

links_by_subscription :
    (sub : Subscription)
    → (let (plan_id, status) = plan_of (some sub) in
        if not (status == "active") then false else (plan_by_id plans plan_id).portal_links)
      ≡ is_paid sub
unfolding plan_of
links_by_subscription sub = elim (Bool-cases (sub.status == "active")) [
  | inl t ↦ rw t (rw t (paid_plans_have_links sub.plan))
  | inr f ↦ rw f (rw f refl)
]

access_of_user :
    (subs : Map Subscription) (actor : Actor) (u : String) (sub : Subscription)
    → actor.user_id ≡ some u
    → subs u ≡ some sub
    → has_portal_access subs actor ≡ is_paid sub
unfolding has_portal_access effective_plan
access_of_user subs actor u sub a b =
    rw (has_portal_access, effective_plan, a, b) (links_by_subscription sub)

-- Portal links are for logged-in users with an active subscription to Pro or Team; every other actor
-- gets 402, anonymous ones too.
pub require_portal_access_lem :
    (subs : Map Subscription) (actor : Actor)
    → ((u : String) × (sub : Subscription) × (actor.user_id ≡ some u)
        × (subs u ≡ some sub)
        × (is_paid sub ≡ true)
        × (require_portal_access subs actor ≡ reply tt))
      ⊎ (((u : String) (sub : Subscription)
            → actor.user_id ≡ some u
            → subs u ≡ some sub
            → is_paid sub ≡ false)
          × (require_portal_access subs actor ≡ fail 402))
unfolding require_portal_access has_portal_access effective_plan
require_portal_access_lem subs actor = elim (Option-cases actor.user_id) [
  | inl n ↦ inr (λ u sub a b. cc, rw n refl)
  | inr (u, a) ↦ elim (Option-cases (subs u)) [
    | inl n ↦ inr (λ v sub a' b. cc, rw (a, n) refl)
    | inr (sub, b) ↦ elim (Bool-cases (is_paid sub)) [
      | inl t ↦ inl (u, sub, a, b, t, rw (access_of_user subs actor u sub a b, t) refl)
      | inr f ↦ inr (
        λ v other a' b'. (let e : sub ≡ other = cc in subst (λ x. is_paid x ≡ false) e f),
        rw (access_of_user subs actor u sub a b, f) refl,
      )
    ]
  ]
]
