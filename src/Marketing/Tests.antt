-- ===== src/Marketing/Tests.antt =====
-- The theorems on consent-dependent actions at a small fleet.
use fleet_management.Prelude.{◌≡◌, refl, [], ◌∷◌, ◌++◌, map}
use fleet_management.Models.Privacy.{marketing_email, optional_analytics}
use fleet_management.Samples.{clock, small_fleet}
use fleet_management.Marketing.{
  enqueue_marketing_email, record_analytics_event, dispatch_pending_marketing,
}
use fleet_management.Marketing.Gate.{Gated, queued_message, event_now, actions_gated}
use fleet_management.Marketing.Dispatch.{settle, dispatch-settle}

actions_gated_example :
    Gated
      (clock 100)
      2
      2
      "c-1"
      small_fleet
      marketing_email
      "marketing_email_action"
      (queued_message (clock 100) 2 2 "c-1" small_fleet "spring")
      (record small_fleet {
        marketing_messages =
            small_fleet.marketing_messages
            ++ queued_message (clock 100) 2 2 "c-1" small_fleet "spring" ∷ [];
      })
      (enqueue_marketing_email (clock 100) 2 "spring" 2 "c-1" small_fleet)
    × Gated
        (clock 100)
        2
        2
        "c-1"
        small_fleet
        optional_analytics
        "optional_analytics_action"
        (event_now (clock 100) 2 2 "c-1" small_fleet "open")
        (record small_fleet {
          analytics_events =
              small_fleet.analytics_events
              ++ event_now (clock 100) 2 2 "c-1" small_fleet "open" ∷ [];
        })
        (record_analytics_event (clock 100) 2 "open" 2 "c-1" small_fleet)
actions_gated_example = actions_gated (clock 100) 2 2 "c-1" small_fleet "spring" "open"

dispatch-settle_example :
    (dispatch_pending_marketing (clock 100) small_fleet).1 ≡ record small_fleet {
      marketing_messages = map (settle small_fleet 100) small_fleet.marketing_messages;
    }
dispatch-settle_example = dispatch-settle (clock 100) small_fleet (refl, (refl, tt))
