-- ===== src/Presence/Tests.antt =====
-- A heartbeat after another viewer has gone silent.
use cross_format_documment.Base.{ℕ, String, true, [], ◌∷◌, ◌≡◌, refl}
use cross_format_documment.Base.Maps.{empty}
use cross_format_documment.Presence.Hub.{View, State, heartbeat, leave, viewers}
use cross_format_documment.Presence.Live.{lists, AllLive, heartbeat-lists}

abbrev view : String → ℕ → View
view i now = record { viewer_id = i; name = i; color = "red"; seen = now }

abbrev before : State
before = (heartbeat 30 empty "d" (view "z" 5)).1

heartbeat-lists_example :
    (lists "a" (heartbeat 30 before "d" (view "a" 20)).0 ≡ true)
    × AllLive 30 (heartbeat 30 before "d" (view "a" 20)).0
heartbeat-lists_example = heartbeat-lists 30 before "d" (view "a" 20)

both_are_listed :
    (heartbeat 30 before "d" (view "a" 20)).0
    ≡ record { viewer_id = "a"; name = "a"; color = "red"; idle = 0 }
      ∷ record { viewer_id = "z"; name = "z"; color = "red"; idle = 15 }
      ∷ []
unfolding heartbeat
both_are_listed = refl

silent_one_is_dropped :
    (heartbeat 30 before "d" (view "a" 40)).0
    ≡ record { viewer_id = "a"; name = "a"; color = "red"; idle = 0 } ∷ []
unfolding heartbeat
silent_one_is_dropped = refl

nobody_after_leaving : (viewers 30 (leave before "d" "z") "d" 6).0 ≡ []
unfolding viewers leave heartbeat
nobody_after_leaving = refl
