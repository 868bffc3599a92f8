-- ===== src/Models/Privacy.antt =====
-- The tables of consent, activity, audit and consent-gated data: models/privacy.py of
-- src/fleet_management.
use fleet_management.Prelude.{ℕ, String, Option, Bool, true, false}

pub data ConsentPurpose : Type 0 where
  marketing_email optional_analytics personalization : ConsentPurpose

pub data ConsentStatus : Type 0 where
  granted withdrawn : ConsentStatus

pub data ConsentAction : Type 0 where
  grant revoke : ConsentAction

pub data MarketingStatus : Type 0 where
  queued sent skipped : MarketingStatus

pub record UserConsent : Type 0 where
  pub id : ℕ
  pub user_id : ℕ
  pub purpose : ConsentPurpose
  pub status : ConsentStatus
  pub policy_version : String
  pub granted_at : Option ℕ
  pub withdrawn_at : Option ℕ
  pub updated_at : ℕ
  pub source : String

pub record ConsentHistory : Type 0 where
  pub id : ℕ
  pub user_id : ℕ
  pub purpose : ConsentPurpose
  pub action : ConsentAction
  pub policy_version : String
  pub source : String
  pub occurred_at : ℕ

pub record UserActivity : Type 0 where
  pub id : ℕ
  pub user_id : ℕ
  pub action : String
  pub occurred_at : ℕ
  pub ip_address : Option String
  pub user_agent : Option String

pub record AuditEvent : Type 0 where
  pub id : ℕ
  pub event_type : String
  pub actor_id : Option ℕ
  pub subject_id : Option ℕ
  pub result : String
  pub correlation_id : String
  pub occurred_at : ℕ

pub record MarketingMessage : Type 0 where
  pub id : ℕ
  pub user_id : ℕ
  pub campaign : String
  pub status : MarketingStatus
  pub created_at : ℕ
  pub processed_at : Option ℕ

pub record AnalyticsEvent : Type 0 where
  pub id : ℕ
  pub user_id : ℕ
  pub event_name : String
  pub occurred_at : ℕ

abbrev pub purpose_eq : ConsentPurpose → ConsentPurpose → Bool
purpose_eq marketing_email marketing_email = true
purpose_eq optional_analytics optional_analytics = true
purpose_eq personalization personalization = true
purpose_eq _ _ = false

abbrev pub is_granted : ConsentStatus → Bool
is_granted granted = true
is_granted withdrawn = false

abbrev pub is_queued : MarketingStatus → Bool
is_queued queued = true
is_queued _ = false

abbrev pub is_sent : MarketingStatus → Bool
is_sent sent = true
is_sent _ = false

abbrev pub is_skipped : MarketingStatus → Bool
is_skipped skipped = true
is_skipped _ = false
