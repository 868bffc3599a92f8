-- ===== src/Marketing/Gate.antt =====
-- What the consent-dependent actions of services/marketing_service.py do, by what the gate says.
use Prim.Native.String.{◌++◌ as str_append}
use fleet_management.Prelude.{
  ℕ, String, ◌≡◌, true, false, none, some, [], ◌∷◌, ◌++◌, Bool-cases, inl, inr, arith,
}
use fleet_management.Models.Privacy.{
  ConsentPurpose, marketing_email, optional_analytics, queued, MarketingMessage, AnalyticsEvent,
}
use fleet_management.Session.{
  Db, audit_events, marketing_messages, analytics_events, Ambient, Result, ok, err, consent_denied,
  integrity_error,
}
use fleet_management.Consent.{check, current_policy_version, user_exists}
use fleet_management.Marketing.{enqueue_marketing_email, record_analytics_event}

module _ (env : Ambient) (user_id actor_id : ℕ) (correlation_id : String) (db : Db) where
  -- The tables with the entry of a refusal behind the audit trail.
  abbrev pub with_denial : String → String → Db
  with_denial event_type reason = record db {
    audit_events =
        db.audit_events
        ++ record {
          id = env.new_id audit_events 0;
          event_type = event_type;
          actor_id = some actor_id;
          subject_id = some user_id;
          result = str_append "DENY:" reason;
          correlation_id = correlation_id;
          occurred_at = env.now 0;
        }
          ∷ [];
  }

  -- How an action that depends on the consent for `purpose` ends: denied, with an entry under
  -- `event_type`; done, with the answer `row` and the tables `after`; or refused by the database.
  pub data Gated {A : Type 0} (purpose : ConsentPurpose) (event_type : String) (row : A)
      (after : Db) : Result A × Db → Type 0 where
    denied :
        (check db user_id purpose current_policy_version).allowed ≡ false
        → Gated purpose event_type row after (
          err (consent_denied purpose (check db user_id purpose current_policy_version).reason),
          with_denial event_type (check db user_id purpose current_policy_version).reason,
        )
    done :
        (check db user_id purpose current_policy_version).allowed ≡ true
        → user_exists user_id db ≡ true
        → Gated purpose event_type row after (ok row, after)
    unknown_user :
        (check db user_id purpose current_policy_version).allowed ≡ true
        → user_exists user_id db ≡ false
        → Gated purpose event_type row after (err integrity_error, db)

  abbrev pub queued_message : String → MarketingMessage
  queued_message campaign = record {
    id = env.new_id marketing_messages 0;
    user_id = user_id;
    campaign = campaign;
    status = queued;
    created_at = env.now 0;
    processed_at = none;
  }

  abbrev pub event_now : String → AnalyticsEvent
  event_now event_name = record {
    id = env.new_id analytics_events 0;
    user_id = user_id;
    event_name = event_name;
    occurred_at = env.now 0;
  }

  enqueue_gated :
      (campaign : String)
      → Gated marketing_email "marketing_email_action"
          (queued_message campaign)
          (record db { marketing_messages = db.marketing_messages ++ queued_message campaign ∷ [] })
          (enqueue_marketing_email env user_id campaign actor_id correlation_id db)
  unfolding enqueue_marketing_email
  enqueue_gated campaign =
      let said = check db user_id marketing_email current_policy_version in
      let call = enqueue_marketing_email env user_id campaign actor_id correlation_id db in
      let after : Db = record db {
        marketing_messages = db.marketing_messages ++ queued_message campaign ∷ [];
      } in
      elim (Bool-cases said.allowed) [
        | inr refuses ↦
            let e : call ≡ (
              err (consent_denied marketing_email said.reason),
              with_denial "marketing_email_action" said.reason,
            ) =
              ground arith in
            rw e (denied refuses)
        | inl allows ↦ elim (Bool-cases (user_exists user_id db)) [
          | inl known ↦
              let e : call ≡ (ok (queued_message campaign), after) = ground arith in
              rw e (done allows known)
          | inr unknown ↦
              let e : call ≡ (err integrity_error, db) = ground arith in
              rw e (unknown_user allows unknown)
        ]
      ]

  record_gated :
      (event_name : String)
      → Gated optional_analytics "optional_analytics_action"
          (event_now event_name)
          (record db { analytics_events = db.analytics_events ++ event_now event_name ∷ [] })
          (record_analytics_event env user_id event_name actor_id correlation_id db)
  unfolding record_analytics_event
  record_gated event_name =
      let said = check db user_id optional_analytics current_policy_version in
      let call = record_analytics_event env user_id event_name actor_id correlation_id db in
      let after : Db = record db {
        analytics_events = db.analytics_events ++ event_now event_name ∷ [];
      } in
      elim (Bool-cases said.allowed) [
        | inr refuses ↦
            let e : call ≡ (
              err (consent_denied optional_analytics said.reason),
              with_denial "optional_analytics_action" said.reason,
            ) =
              ground arith in
            rw e (denied refuses)
        | inl allows ↦ elim (Bool-cases (user_exists user_id db)) [
          | inl known ↦
              let e : call ≡ (ok (event_now event_name), after) = ground arith in
              rw e (done allows known)
          | inr unknown ↦
              let e : call ≡ (err integrity_error, db) = ground arith in
              rw e (unknown_user allows unknown)
        ]
      ]

  -- Each action depends on its own consent alone, whatever the other one says: an e-mail is queued
  -- exactly where the gate allows marketing e-mail, and an analytics event is recorded exactly where
  -- it allows optional analytics, to a user that stands in the table. Where the gate denies it, the
  -- call raises the gate's reason, and all that it commits is one audit entry of the refusal.
  pub actions_gated :
      (campaign event_name : String)
      → Gated marketing_email "marketing_email_action"
          (queued_message campaign)
          (record db { marketing_messages = db.marketing_messages ++ queued_message campaign ∷ [] })
          (enqueue_marketing_email env user_id campaign actor_id correlation_id db)
        × Gated optional_analytics "optional_analytics_action"
            (event_now event_name)
            (record db { analytics_events = db.analytics_events ++ event_now event_name ∷ [] })
            (record_analytics_event env user_id event_name actor_id correlation_id db)
  actions_gated campaign event_name = (enqueue_gated campaign, record_gated event_name)
