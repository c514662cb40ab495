-- ===== src/Plans/Tests.antt =====
-- A Pro subscriber, and one whose payment is overdue.
use cross_format_documment.Base.{String, some, true, false, ◌≡◌, ◌⊎◌, refl}
use cross_format_documment.Base.Http.{reply, fail}
use cross_format_documment.Base.Maps.{Map, empty, put}
use cross_format_documment.Access.Owner.{Actor}
use cross_format_documment.Plans.{Subscription, require_portal_access}
use cross_format_documment.Plans.Portal.{is_paid, require_portal_access_lem}

abbrev subscribed : Map Subscription
subscribed =
    put (put empty "u" (record { plan = "pro"; status = "active" })) "v"
      (record { plan = "team"; status = "past_due" })

abbrev user : String → Actor
user u = record { session_id = "s"; user_id = some u }

require_portal_access_lem_example :
    ((u : String) × (sub : Subscription) × ((user "u").user_id ≡ some u)
      × (subscribed u ≡ some sub)
      × (is_paid sub ≡ true)
      × (require_portal_access subscribed (user "u") ≡ reply tt))
    ⊎ (((u : String) (sub : Subscription)
          → (user "u").user_id ≡ some u
          → subscribed u ≡ some sub
          → is_paid sub ≡ false)
        × (require_portal_access subscribed (user "u") ≡ fail 402))
require_portal_access_lem_example = require_portal_access_lem subscribed (user "u")

subscriber_is_let_in : require_portal_access subscribed (user "u") ≡ reply tt
unfolding require_portal_access
subscriber_is_let_in = refl

overdue_is_refused : require_portal_access subscribed (user "v") ≡ fail 402
unfolding require_portal_access
overdue_is_refused = refl
