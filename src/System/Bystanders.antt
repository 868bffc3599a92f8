-- ===== src/System/Bystanders.antt =====
-- The requests of src/fleet_management that have no part in vehicles and rentals.
use fleet_management.Prelude.{ℕ, String, refl, Option, none, some, arith}
use fleet_management.Session.{Db, Ambient, Result, commit_checked, pure, ◌>>◌}
use fleet_management.Registration.{create_renter, new_renter, stage_renter, license_free}
use fleet_management.Marketing.{
  new_message, stage_message, new_event, stage_event, enqueue_marketing_email,
  record_analytics_event, dispatch_pending_marketing,
}
use fleet_management.Models.Privacy.{ConsentPurpose, marketing_email, optional_analytics}
use fleet_management.Consent.{grant, revoke, withdraw_all, user_exists}
use fleet_management.Consent.Outcome.{grant_outcome, revoke_outcome}
use fleet_management.Erasure.{Randomness, AnonymizeOutcome, erase}
use fleet_management.Erasure.Outcome.{Erasing, rejected, repeated, erased, anonymize_outcome}
use fleet_management.PrivacyRoutes.{
  SubjectAccess, export_personal_data, anonymize, create_renter_profile, grant_consent,
  revoke_consent, queue_marketing_email, track_analytics_event,
}
use fleet_management.System.Frame.{SameFleet}
use fleet_management.System.Columns.{commit_checked-keeps}
use fleet_management.System.Handlers.{answered-keeps, Granting-SameRest, Revoking-SameRest}
use fleet_management.System.Effects.{require_consent-keeps}

pub untouched : (db : Db) → SameFleet db db
untouched db = record { vehicles = refl; rentals = refl }

pub create_renter-SameFleet :
    (env : Ambient) (full_name license_number : String) (db : Db)
    → SameFleet db (create_renter env full_name license_number db).1
unfolding create_renter
create_renter-SameFleet env full_name license_number db =
    let new = new_renter env full_name license_number in
    commit_checked-keeps (SameFleet db) (license_free license_number) (stage_renter new) new db
      (λ free. record { vehicles = refl; rentals = refl }) (untouched db)

module _ (env : Ambient) (access : SubjectAccess) (db : Db) where
  pub create_renter_profile-SameFleet :
      (full_name license_number : String)
      → SameFleet db (create_renter_profile env full_name license_number access db).1
  unfolding create_renter_profile
  create_renter_profile-SameFleet full_name license_number = ground arith

  pub grant_consent-SameFleet :
      (purpose : ConsentPurpose) (version source : String)
      → SameFleet db (grant_consent (λ d. d) env purpose version source access db).1
  unfolding grant_consent
  grant_consent-SameFleet purpose version source =
      let user_id = access.subject.id in
      answered-keeps (SameFleet db) (grant (λ d. d) env user_id purpose version source) _ db
        (Granting-SameRest env user_id purpose version source db _
          (grant_outcome env user_id purpose version source db)).0

  pub revoke_consent-SameFleet :
      (purpose : ConsentPurpose) (source : Option String)
      → SameFleet db (revoke_consent env purpose source access db).1
  unfolding revoke_consent
  revoke_consent-SameFleet purpose source =
      let user_id = access.subject.id in
      let text = elim source as (λ _. String) [ none ↦ "api" | some s ↦ s ] in
      answered-keeps (SameFleet db) (revoke env user_id purpose text) _ db
        (Revoking-SameRest env user_id purpose text db _
          (revoke_outcome env user_id purpose text db)).0

  pub export_personal_data-SameFleet : SameFleet db (export_personal_data env access db).1
  unfolding export_personal_data
  export_personal_data-SameFleet = record { vehicles = refl; rentals = refl }

  pub queue_marketing_email-SameFleet :
      (campaign : String) → SameFleet db (queue_marketing_email env campaign access db).1
  unfolding queue_marketing_email enqueue_marketing_email
  queue_marketing_email-SameFleet campaign =
      let new = new_message env access.subject.id campaign in
      require_consent-keeps (SameFleet db) env access.subject.id marketing_email access.actor.id
        access.correlation_id
        (commit_checked (user_exists access.subject.id) (stage_message new) >> pure new) db
        (λ e. record { vehicles = refl; rentals = refl })
        (commit_checked-keeps (SameFleet db) (user_exists access.subject.id) (stage_message new) new
          db (λ known. record { vehicles = refl; rentals = refl }) (untouched db))

  pub track_analytics_event-SameFleet :
      (event_name : String) → SameFleet db (track_analytics_event env event_name access db).1
  unfolding track_analytics_event record_analytics_event
  track_analytics_event-SameFleet event_name =
      let new = new_event env access.subject.id event_name in
      require_consent-keeps (SameFleet db) env access.subject.id optional_analytics access.actor.id
        access.correlation_id
        (commit_checked (user_exists access.subject.id) (stage_event new) >> pure new) db
        (λ e. record { vehicles = refl; rentals = refl })
        (commit_checked-keeps (SameFleet db) (user_exists access.subject.id) (stage_event new) new
          db (λ known. record { vehicles = refl; rentals = refl }) (untouched db))

Erasing-SameFleet :
    (env : Ambient) (rnd : Randomness) (subject_id actor_id : ℕ) (correlation_id : String) (db : Db)
    (o : Result AnonymizeOutcome × Db)
    → Erasing env rnd subject_id actor_id correlation_id db o
    → SameFleet db o.1
unfolding erase withdraw_all
Erasing-SameFleet env rnd subject_id actor_id correlation_id db o (rejected e) = untouched db
Erasing-SameFleet env rnd subject_id actor_id correlation_id db o (repeated u t found before) =
    record { vehicles = refl; rentals = refl }
Erasing-SameFleet env rnd subject_id actor_id correlation_id db o (erased u found first hold) =
    record { vehicles = refl; rentals = refl }

pub anonymize-SameFleet :
    (env : Ambient) (rnd : Randomness) (access : SubjectAccess) (db : Db)
    → SameFleet db (anonymize env rnd access db).1
unfolding anonymize
anonymize-SameFleet env rnd access db =
    Erasing-SameFleet env rnd access.subject.id access.actor.id access.correlation_id db _
      (anonymize_outcome env rnd access.subject.id access.actor.id access.correlation_id db)

pub dispatch-SameFleet :
    (env : Ambient) (db : Db) → SameFleet db (dispatch_pending_marketing env db).1
unfolding dispatch_pending_marketing
dispatch-SameFleet env db = record { vehicles = refl; rentals = refl }
