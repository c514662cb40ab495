-- ===== src/Plans.antt =====
-- services/billing/plans.py (backend/src/docos): the plans, and who may create portal links.
pub mod Portal
mod Tests
use cross_format_documment.Base.{
  ℕ, String, ◌==◌, Option, none, some, Bool, true, false, not, List, [], ◌∷◌, if◌then◌else◌,
}
use cross_format_documment.Base.Maps.{Map}
use cross_format_documment.Base.Http.{Http, reply, fail}
use cross_format_documment.Access.Owner.{Actor}

pub record Plan : Type 0 where
  pub id : String
  pub name : String
  pub price_monthly : ℕ
  pub features : List String
  pub portal_links : Bool

-- The columns of a subscription that are read here.
pub record Subscription : Type 0 where
  pub plan : String
  pub status : String

abbrev pub free : Plan
free = record {
  id = "free";
  name = "Free";
  price_monthly = 0;
  features =
      "Unlimited client packet readiness checks" ∷ "Full document editor + trust tools"
      ∷ "Private session workspace" ∷ [];
  portal_links = false;
}

abbrev pub pro : Plan
pro = record {
  id = "pro";
  name = "Pro";
  price_monthly = 99;
  features =
      "Everything in Free" ∷ "Shareable client portal links" ∷ "Bulk send with recipient access"
      ∷ "Saved account + document library" ∷ [];
  portal_links = true;
}

abbrev pub team : Plan
team = record {
  id = "team";
  name = "Team";
  price_monthly = 299;
  features = "Everything in Pro" ∷ "Team seats (coming soon)" ∷ "Priority support" ∷ [];
  portal_links = true;
}

abbrev pub plans : List Plan
plans = free ∷ pro ∷ team ∷ []

-- `_PLAN_BY_ID.get(plan_id, _PLAN_BY_ID["free"])`
unfoldable pub plan_by_id : List Plan → String → Plan
plan_by_id [] plan_id = free
plan_by_id (p ∷ rest) plan_id =
    let found = plan_by_id rest plan_id in if p.id == plan_id then p else found

-- of a subscription that was looked up
unfoldable pub plan_of : Option Subscription → String × String
plan_of none = ("free", "active")
plan_of (some sub) =
    if not (sub.status == "active") then ("free", sub.status) else (sub.plan, sub.status)

-- `subs` holds the subscription of each user.
unfoldable pub effective_plan : Map Subscription → Actor → String × String
unfolding plan_of
effective_plan subs actor = elim actor.user_id [
  | none ↦ ("free", "active")
  | some u ↦ plan_of (subs u)
]

unfoldable pub has_portal_access : Map Subscription → Actor → Bool
unfolding effective_plan plan_by_id
has_portal_access subs actor =
    let (plan_id, status) = effective_plan subs actor in
    if not (status == "active") then false else (plan_by_id plans plan_id).portal_links

unfoldable pub require_portal_access : Map Subscription → Actor → Http (Unit {0})
unfolding has_portal_access
require_portal_access subs actor = if has_portal_access subs actor then reply tt else fail 402
