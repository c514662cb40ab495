-- ===== src/RateLimit/Tests.antt =====
-- A bucket of two tokens that gets one a second.
use cross_format_documment.Base.{◌+◌, ◌-◌, ◌*◌, ◌≤◌, List, [], ◌∷◌, ◌≡◌, refl, arith, none, true}
use cross_format_documment.Base.Http.{fail}
use cross_format_documment.Base.Maps.{empty}
use cross_format_documment.Access.Owner.{Actor}
use cross_format_documment.RateLimit.Bucket.{whole, draw, allow}
use cross_format_documment.RateLimit.Bound.{Call, admitted, admitted_at_most}
use cross_format_documment.RateLimit.Enforce.{Limits, enforce_upload_rate}

abbrev four_calls : List Call
four_calls = ("a", 0) ∷ ("a", 0) ∷ ("b", 0) ∷ ("a", 0) ∷ ("a", 1) ∷ []

admitted_at_most_example :
    admitted 1 60 2 "a" empty four_calls * whole 1 ≤ 2 * whole 1 + (1 - 0) * 60
admitted_at_most_example =
    admitted_at_most 1 60 2 "a" empty 0 1 four_calls refl
      (omega arith, (omega arith, (omega arith, (omega arith, (omega arith, omega arith)))))

-- The third call at once is refused, the one a second later is let through.
three_pass : admitted 1 60 2 "a" empty four_calls ≡ 3
unfolding allow draw
three_pass = refl

abbrev limits : Limits
limits = record {
  rate_limit_enabled = true;
  rate_limit_uploads_per_min = 1;
  rate_limit_ops_per_min = 1;
  rate_limit_auth_per_min = 1;
  rate_limit_portal_per_min = 1;
}

abbrev guest : Actor
guest = record { session_id = "s"; user_id = none }

second_upload_is_refused :
    (enforce_upload_rate 1 limits
      (enforce_upload_rate 1 limits empty none guest 0).0
      none
      guest
      0).1
    ≡ fail 429
unfolding enforce_upload_rate
second_upload_is_refused = refl
