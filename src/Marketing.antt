-- ===== src/Marketing.antt =====
-- Actions that depend on a consent: services/marketing_service.py of src/fleet_management.
pub mod Dispatch
pub mod Gate
mod Tests
use Prim.Native.String.{◌++◌ as str_append}
use fleet_management.Prelude.{
  ℕ, String, Bool, true, false, Option, none, some, List, [], ◌∷◌, ◌++◌, map, select, update_where,
  count_where, ◌==◌, if◌then◌else◌,
}
use fleet_management.Models.Privacy.{
  ConsentPurpose, marketing_email, optional_analytics, personalization, MarketingMessage,
  MarketingStatus, queued, sent, skipped, AnalyticsEvent, is_queued, is_sent, is_skipped,
}
use fleet_management.Session.{
  Db, marketing_messages, analytics_events, Ambient, Action, ok, err, consent_denied,
  commit_checked, pure, raise, gets, ◌>>=◌, ◌>>◌,
}
use fleet_management.Consent.{check, GateDecision, current_policy_version, user_exists}
use fleet_management.Audit.{record_audit_event}

-- `f"{purpose.value.lower()}_action"`
abbrev pub action_event : ConsentPurpose → String
action_event marketing_email = "marketing_email_action"
action_event optional_analytics = "optional_analytics_action"
action_event personalization = "personalization_action"

-- `if decision.allowed: return`, and the rest.
abbrev pub unless_allowed : Bool → Action (Unit {0}) → Action (Unit {0})
unless_allowed true rest = pure tt
unless_allowed false rest = rest

-- A refusal is committed to the audit trail before it is raised.
abbrev pub deny : Ambient → ℕ → ConsentPurpose → ℕ → String → GateDecision → Action (Unit {0})
deny env user_id purpose actor_id correlation_id decision = do
  record_audit_event env (action_event purpose) actor_id user_id
      (str_append "DENY:" decision.reason) correlation_id
  raise (consent_denied purpose decision.reason)

unfoldable pub require_consent : Ambient → ℕ → ConsentPurpose → ℕ → String → Action (Unit {0})
unfolding record_audit_event
require_consent env user_id purpose actor_id correlation_id = do
  decision ← gets (λ db. check db user_id purpose current_policy_version)
  unless_allowed decision.allowed (deny env user_id purpose actor_id correlation_id decision)

abbrev pub new_message : Ambient → ℕ → String → MarketingMessage
new_message env user_id campaign = record {
  id = env.new_id marketing_messages 0;
  user_id = user_id;
  campaign = campaign;
  status = queued;
  created_at = env.now 0;
  processed_at = none;
}

abbrev pub stage_message : MarketingMessage → Db → Db
stage_message m db = record db { marketing_messages = db.marketing_messages ++ m ∷ [] }

unfoldable pub enqueue_marketing_email : Ambient → ℕ → String → ℕ → String → Action MarketingMessage
unfolding require_consent
enqueue_marketing_email env user_id campaign actor_id correlation_id = do
  require_consent env user_id marketing_email actor_id correlation_id
  commit_checked (user_exists user_id) (stage_message (new_message env user_id campaign))
  pure (new_message env user_id campaign)

abbrev pub new_event : Ambient → ℕ → String → AnalyticsEvent
new_event env user_id event_name = record {
  id = env.new_id analytics_events 0;
  user_id = user_id;
  event_name = event_name;
  occurred_at = env.now 0;
}

abbrev pub stage_event : AnalyticsEvent → Db → Db
stage_event e db = record db { analytics_events = db.analytics_events ++ e ∷ [] }

unfoldable pub record_analytics_event : Ambient → ℕ → String → ℕ → String → Action AnalyticsEvent
unfolding require_consent
record_analytics_event env user_id event_name actor_id correlation_id = do
  require_consent env user_id optional_analytics actor_id correlation_id
  commit_checked (user_exists user_id) (stage_event (new_event env user_id event_name))
  pure (new_event env user_id event_name)

pub record DispatchOutcome : Type 0 where
  pub message : MarketingMessage
  pub allowed : Bool
  pub processed_at : ℕ

abbrev pub outcome_status : DispatchOutcome → MarketingStatus
outcome_status o = if o.allowed then sent else skipped

abbrev pub process : DispatchOutcome → MarketingMessage → MarketingMessage
process o m = record m { status = outcome_status o; processed_at = some o.processed_at }

-- `apply` writes to the message's row, which its primary key names.
abbrev pub apply : DispatchOutcome → List MarketingMessage → List MarketingMessage
apply o = update_where (λ m. m.id == o.message.id) (process o)

abbrev pub verdict : Db → ℕ → MarketingMessage → DispatchOutcome
verdict db processed_at m = record {
  message = m;
  allowed = (check db m.user_id marketing_email current_policy_version).allowed;
  processed_at = processed_at;
}

unfoldable pub decide_queue : Db → ℕ → List DispatchOutcome
decide_queue db processed_at =
    map (verdict db processed_at) (select (λ m. is_queued m.status) db.marketing_messages)

unfoldable pub apply_all : List DispatchOutcome → List MarketingMessage → List MarketingMessage
apply_all [] messages = messages
apply_all (o ∷ outcomes) messages = apply_all outcomes (apply o messages)

pub record Summary : Type 0 where
  pub sent : ℕ
  pub skipped : ℕ

unfoldable pub summary : List DispatchOutcome → Summary
summary outcomes = record {
  sent = count_where (λ o. is_sent (outcome_status o)) outcomes;
  skipped = count_where (λ o. is_skipped (outcome_status o)) outcomes;
}

unfoldable pub dispatch_pending_marketing : Ambient → Action Summary
unfolding decide_queue apply_all summary
dispatch_pending_marketing env db =
    let outcomes = decide_queue db (env.now 0) in
    (
      ok (summary outcomes),
      record db { marketing_messages = apply_all outcomes db.marketing_messages },
    )
