-- ===== src/PrivacyRoutes.antt =====
-- The privacy routes: src/fleet_management/api/privacy.py. The rows that a request inserts are
-- numbered within the request.
pub mod Access
mod Tests
use fleet_management.Prelude.{
  ℕ, String, Bool, true, false, not, ◌&&◌, ◌||◌, Option, none, some, List, [], ◌∷◌, ◌++◌, find?,
  is_some, ◌==◌, if◌then◌else◌, str_eq,
}
use fleet_management.Models.Fleet.{Renter}
use fleet_management.Models.Account.{User, UserRole, role_eq}
use fleet_management.Models.Privacy.{
  ConsentPurpose, ConsentStatus, UserConsent, ConsentHistory, MarketingMessage, AnalyticsEvent,
}
use fleet_management.Session.{
  Db, renters, Ambient, Entity, not_found, http_exception, Action, Result, ok, err, gets, pure,
  raise, ◌>>=◌, ◌>>◌,
}
use fleet_management.Audit.{record_audit_event}
use fleet_management.Consent.{ConsentChange, grant, revoke, list_current, list_history}
use fleet_management.Marketing.{
  Summary, enqueue_marketing_email, record_analytics_event, dispatch_pending_marketing,
}
use fleet_management.Erasure.{Randomness, AnonymizeOutcome, anonymize_user, belongs_to}
use fleet_management.Export.{PersonalDataExport, build_export}

pub record SubjectAccess : Type 0 where
  pub subject : User
  pub actor : User
  pub correlation_id : String

abbrev pub find_subject : ℕ → Db → Option User
find_subject user_id db = find? (λ u. u.id == user_id) db.users

abbrev pub is_allowed : User → ℕ → Bool
is_allowed actor user_id = actor.id == user_id || role_eq actor.role UserRole.admin

abbrev pub refusal : Bool → String
refusal allowed = if not allowed then "denied" else "not_found"

-- The end of `dependency`, given the subject that was read.
abbrev pub access_to :
    Ambient → String → String → ℕ → User → Bool → Option User → Action SubjectAccess
access_to env event_type correlation_id user_id actor allowed (some subject) db =
    (ok (record { subject = subject; actor = actor; correlation_id = correlation_id }), db)
access_to env event_type correlation_id user_id actor allowed none db =
    (do
      record_audit_event env event_type actor.id user_id (refusal allowed) correlation_id
      raise (not_found Entity.user user_id))
      db

unfoldable pub subject_access : Ambient → String → String → ℕ → User → Action SubjectAccess
unfolding record_audit_event
subject_access env event_type correlation_id user_id actor db =
    let allowed = is_allowed actor user_id in
    access_to env event_type correlation_id user_id actor allowed
      (if allowed then find_subject user_id db else none) db

-- What a route's handler does with the access.
abbrev pub Handler : Type 0 → Type 0
Handler A = SubjectAccess → Action A

-- A route: the dependency and then the handler.
abbrev pub route : {A : Type 0} → Ambient → String → String → ℕ → User → Handler A → Action A
route env event_type correlation_id user_id actor handler = do
  access ← subject_access env event_type correlation_id user_id actor
  handler access

unfoldable pub export_personal_data : Ambient → Handler PersonalDataExport
unfolding record_audit_event
export_personal_data env access = do
  export ← gets (build_export (env.now 0) access.subject)
  record_audit_event env "personal_data_export" access.actor.id access.subject.id "ok"
      access.correlation_id
  pure export

-- The response also shows `anonymized_at`, which stands in the row.
unfoldable pub anonymize : Ambient → Randomness → Handler AnonymizeOutcome
anonymize env rnd access =
    anonymize_user env rnd access.subject.id access.actor.id access.correlation_id

abbrev pub new_profile : Ambient → ℕ → String → String → Renter
new_profile env user_id full_name license_number = record {
  id = env.new_id renters 0;
  full_name = full_name;
  license_number = license_number;
  user_id = some user_id;
}

-- The unique columns `renters.license_number` and `renters.user_id`.
abbrev pub profile_fits : ℕ → String → Db → Bool
profile_fits user_id license_number db =
    not (is_some (find? (λ r. str_eq r.license_number license_number) db.renters))
    && not (is_some (find? (belongs_to user_id) db.renters))

unfoldable pub create_renter_profile : Ambient → String → String → Handler ℕ
create_renter_profile env full_name license_number access db =
    if profile_fits access.subject.id license_number db
    then (
      ok (env.new_id renters 0),
      record db {
        renters = db.renters ++ new_profile env access.subject.id full_name license_number ∷ [];
      },
    )
    else (err (http_exception 409), db)

unfoldable pub list_consents : Handler (List UserConsent × List ConsentHistory)
list_consents access =
    gets (λ db. (list_current access.subject.id db, list_history access.subject.id db))

-- `ConsentState`: no consent is the status "NONE".
pub record ConsentState : Type 0 where
  pub purpose : ConsentPurpose
  pub consent : Option UserConsent
  pub changed : Bool

abbrev pub consent_state : ConsentPurpose → ConsentChange → ConsentState
consent_state purpose change = record {
  purpose = purpose;
  consent = change.consent;
  changed = change.changed;
}

unfoldable pub grant_consent :
    (Db → Db) → Ambient → ConsentPurpose → String → String → Handler ConsentState
grant_consent others env purpose policy_version source access = do
  change ← grant others env access.subject.id purpose policy_version source
  pure (consent_state purpose change)

unfoldable pub revoke_consent : Ambient → ConsentPurpose → Option String → Handler ConsentState
revoke_consent env purpose source access = do
  change ← revoke env access.subject.id purpose (elim source [ none ↦ "api" | some s ↦ s ])
  pure (consent_state purpose change)

unfoldable pub queue_marketing_email : Ambient → String → Handler MarketingMessage
queue_marketing_email env campaign access =
    enqueue_marketing_email env access.subject.id campaign access.actor.id access.correlation_id

unfoldable pub track_analytics_event : Ambient → String → Handler AnalyticsEvent
track_analytics_event env event_name access =
    record_analytics_event env access.subject.id event_name access.actor.id access.correlation_id
