-- ===== src/System/Sound.antt =====
-- The requests of src/fleet_management keep the database sound.
use mathlib.Core.Path.{subst}
use fleet_management.Prelude.{ℕ, String, ◌≡◌, refl, sym, Option, inl, inr}
use fleet_management.Models.Account.{User, UserRole}
use fleet_management.Session.{Db, Ambient}
use fleet_management.Account.{Passwords, Tokens, create_user}
use fleet_management.Registration.{
  create_vehicle, create_renter, new_renter, stage_renter, license_free,
}
use fleet_management.Registration.Keeps.{create_vehicle_outcome, create_vehicle-IsConsistent}
use fleet_management.Rental.{start_rental, end_rental}
use fleet_management.Rental.Consistency.{
  IsConsistent, start_rental-IsConsistent, end_rental-IsConsistent,
}
use fleet_management.Rental.Outcome.{Rejected-same, start_rental_outcome, end_rental_outcome}
use fleet_management.PrivacyRoutes.{
  SubjectAccess, Handler, route, export_personal_data, anonymize, create_renter_profile,
  grant_consent, revoke_consent, queue_marketing_email, track_analytics_event,
}
use fleet_management.System.{
  IsSound, Step, registers, logs_in, adds_station, adds_vehicle, adds_renter, starts, ends,
  links_profile, grants, revokes, exports, erases, queues, tracks, dispatches, Reach, here, next,
}
use fleet_management.System.Frame.{
  SameConsents, SameColumns, SameMessages, SameAll-IsSound, SameFleet-IsConsistent,
  SameConsents-IsEvidenced, SameColumns-unique_columns_hold, login-SameAll, create_station-SameAll,
  create_user-SameFleet, create_user-SameConsents,
}
use fleet_management.System.Columns.{
  create_user-unique_columns_hold, commit_checked-keeps, license_unused,
}
use fleet_management.System.Handlers.{
  add_audit_event-SameAll, route-keeps, insert_renter-IsSound, create_renter_profile-IsSound,
  grant_consent-IsSound, revoke_consent-IsSound,
}
use fleet_management.System.Effects.{
  export_personal_data-IsSound, anonymize-IsSound, queue_marketing_email-IsSound,
  track_analytics_event-IsSound, dispatch-IsSound,
}

-- What a request on vehicles and rentals leaves alone.
pub record FleetOnly (db after : Db) : Type 0 where
  pub consents : SameConsents db after
  pub columns : SameColumns db after
  pub messages : SameMessages db after

FleetOnly-IsSound :
    (db after : Db) → FleetOnly db after → IsConsistent after → IsSound db → IsSound after
FleetOnly-IsSound db after same consistent sound = record {
  consistent = consistent;
  one_per_purpose = rw same.consents.user_consents sound.one_per_purpose;
  evidenced = SameConsents-IsEvidenced db after same.consents sound.evidenced;
  message_keys = rw same.messages sound.message_keys;
  unique_columns = SameColumns-unique_columns_hold db after same.columns sound.unique_columns;
}

unchanged : (db : Db) → FleetOnly db db
unchanged db = record {
  consents = record { user_consents = refl; consent_history = refl };
  columns = record { users = refl; renters = refl };
  messages = refl;
}

rejected_same : (db after : Db) → after ≡ db → FleetOnly db after
rejected_same db after same = subst (FleetOnly db) (sym same) (unchanged db)

pub start_rental-FleetOnly :
    (env : Ambient) (renter_id vehicle_id : ℕ) (db : Db)
    → FleetOnly db (start_rental env renter_id vehicle_id db).1
start_rental-FleetOnly env renter_id vehicle_id db =
    elim (start_rental_outcome env renter_id vehicle_id db) [
      | inl rejected ↦ rejected_same db _ (Rejected-same _ rejected)
      | inr s ↦ rw s.result (record {
        consents = record { user_consents = refl; consent_history = refl };
        columns = record { users = refl; renters = refl };
        messages = refl;
      })
    ]

pub end_rental-FleetOnly :
    (env : Ambient) (rental_id station_id : ℕ) (db : Db)
    → FleetOnly db (end_rental env rental_id station_id db).1
end_rental-FleetOnly env rental_id station_id db =
    elim (end_rental_outcome env rental_id station_id db) [
      | inl rejected ↦ rejected_same db _ (Rejected-same _ rejected)
      | inr s ↦ rw s.result (record {
        consents = record { user_consents = refl; consent_history = refl };
        columns = record { users = refl; renters = refl };
        messages = refl;
      })
    ]

pub create_vehicle-FleetOnly :
    (env : Ambient) (license_plate model : String) (station_id : ℕ) (db : Db)
    → FleetOnly db (create_vehicle env license_plate model station_id db).1
create_vehicle-FleetOnly env license_plate model station_id db =
    elim (create_vehicle_outcome env license_plate model station_id db) [
      | inl rejected ↦ rejected_same db _ (Rejected-same _ rejected)
      | inr added ↦ rw added.result (record {
        consents = record { user_consents = refl; consent_history = refl };
        columns = record { users = refl; renters = refl };
        messages = refl;
      })
    ]

create_user-IsSound :
    (P : Passwords) (env : Ambient) (salt : ℕ) (email password full_name : String) (role : UserRole)
    (phone : Option String) (db : Db)
    → IsSound db
    → IsSound (create_user P env salt email password full_name role phone db).1
create_user-IsSound P env salt email password full_name role phone db sound =
    let after = (create_user P env salt email password full_name role phone db).1 in
    let others = create_user-SameConsents P env salt email password full_name role phone db in
    record {
      consistent =
          SameFleet-IsConsistent db after
            (create_user-SameFleet P env salt email password full_name role phone db)
            sound.consistent;
      one_per_purpose = rw others.0.user_consents sound.one_per_purpose;
      evidenced = SameConsents-IsEvidenced db after others.0 sound.evidenced;
      message_keys = rw others.1 sound.message_keys;
      unique_columns =
          create_user-unique_columns_hold P env salt email password full_name role phone db
            sound.unique_columns;
    }

create_renter-IsSound :
    (env : Ambient) (full_name license_number : String) (db : Db)
    → IsSound db
    → IsSound (create_renter env full_name license_number db).1
unfolding create_renter
create_renter-IsSound env full_name license_number db sound =
    let new = new_renter env full_name license_number in
    commit_checked-keeps IsSound (license_free license_number) (stage_renter new) new db
      (λ free. insert_renter-IsSound db new (license_unused license_number db free) sound) sound

-- A route of a sound handler.
route-IsSound :
    {A : Type 0} (env : Ambient) (event correlation_id : String) (user_id : ℕ) (actor : User)
    (handler : Handler A) (db : Db)
    → ((access : SubjectAccess) → IsSound (handler access db).1)
    → IsSound db
    → IsSound (route env event correlation_id user_id actor handler db).1
route-IsSound env event correlation_id user_id actor handler db handled sound =
    route-keeps IsSound env event correlation_id user_id actor handler db
      (λ e. SameAll-IsSound db _ (add_audit_event-SameAll e db) sound) handled

-- Every request and job keeps the database sound: vehicles and rentals agree, each user has one
-- consent for a purpose and the history tells all of them, messages have ids of their own, and the
-- e-mail addresses and licence numbers are distinct.
pub Step-IsSound :
    (P : Passwords) (T : Tokens) (db after : Db) → Step P T db after → IsSound db → IsSound after
Step-IsSound P T db after (registers env salt email password full_name role phone e) sound =
    subst IsSound (sym e)
      (create_user-IsSound P env salt email password full_name role phone db sound)
Step-IsSound P T db after (logs_in env expire_minutes username password ip_address user_agent e)
      sound =
    subst IsSound (sym e) (
      SameAll-IsSound db _
        (login-SameAll T P env expire_minutes username password ip_address user_agent db) sound)
Step-IsSound P T db after (adds_station env address capacity e) sound =
    subst IsSound (sym e)
      (SameAll-IsSound db _ (create_station-SameAll env address capacity db) sound)
Step-IsSound P T db after (adds_vehicle env license_plate model station_id fresh e) sound =
    subst IsSound (sym e) (
      FleetOnly-IsSound db _ (create_vehicle-FleetOnly env license_plate model station_id db)
        (create_vehicle-IsConsistent env license_plate model station_id db fresh sound.consistent)
        sound)
Step-IsSound P T db after (adds_renter env full_name license_number e) sound =
    subst IsSound (sym e) (create_renter-IsSound env full_name license_number db sound)
Step-IsSound P T db after (starts env renter_id vehicle_id fresh e) sound = subst IsSound (sym e) (
    FleetOnly-IsSound db _ (start_rental-FleetOnly env renter_id vehicle_id db)
      (start_rental-IsConsistent env renter_id vehicle_id db fresh sound.consistent) sound)
Step-IsSound P T db after (ends env rental_id station_id e) sound = subst IsSound (sym e) (
    FleetOnly-IsSound db _ (end_rental-FleetOnly env rental_id station_id db)
      (end_rental-IsConsistent env rental_id station_id db sound.consistent) sound)
Step-IsSound P T db after
      (links_profile env event correlation_id user_id actor full_name license_number e) sound =
    subst IsSound (sym e) (
      route-IsSound env event correlation_id user_id actor
        (create_renter_profile env full_name license_number) db
        (λ access. create_renter_profile-IsSound env full_name license_number access db sound)
        sound)
Step-IsSound P T db after (grants env event correlation_id user_id actor purpose version source e)
      sound =
    subst IsSound (sym e) (
      route-IsSound env event correlation_id user_id actor
        (grant_consent (λ d. d) env purpose version source) db
        (λ access. grant_consent-IsSound env purpose version source access db sound) sound)
Step-IsSound P T db after (revokes env event correlation_id user_id actor purpose source e) sound =
    subst IsSound (sym e) (
      route-IsSound env event correlation_id user_id actor (revoke_consent env purpose source) db
        (λ access. revoke_consent-IsSound env purpose source access db sound) sound)
Step-IsSound P T db after (exports env event correlation_id user_id actor e) sound =
    subst IsSound (sym e) (
      route-IsSound env event correlation_id user_id actor (export_personal_data env) db
        (λ access. export_personal_data-IsSound env access db sound) sound)
Step-IsSound P T db after (erases env rnd event correlation_id user_id actor e) sound =
    subst IsSound (sym e) (
      route-IsSound env event correlation_id user_id actor (anonymize env rnd) db
        (λ access. anonymize-IsSound env rnd access db sound) sound)
Step-IsSound P T db after (queues env event correlation_id user_id actor campaign fresh e) sound =
    subst IsSound (sym e) (
      route-IsSound env event correlation_id user_id actor (queue_marketing_email env campaign) db
        (λ access. queue_marketing_email-IsSound env campaign access db fresh sound) sound)
Step-IsSound P T db after (tracks env event correlation_id user_id actor event_name e) sound =
    subst IsSound (sym e) (
      route-IsSound env event correlation_id user_id actor (track_analytics_event env event_name) db
        (λ access. track_analytics_event-IsSound env event_name access db sound) sound)
Step-IsSound P T db after (dispatches env e) sound =
    subst IsSound (sym e) (dispatch-IsSound env db sound)

-- However many requests and jobs follow one another, a database that is sound at the start is sound
-- after the last: vehicles and rentals agree, each user has one consent for a purpose and the
-- history tells all of them, messages have ids of their own, and the e-mail addresses and licence
-- numbers are distinct.
pub Reach-IsSound :
    (P : Passwords) (T : Tokens) (start db : Db) → Reach P T start db → IsSound start → IsSound db
Reach-IsSound P T start _ here sound = sound
Reach-IsSound P T start after (next {db} earlier step) sound =
    Step-IsSound P T db after step (Reach-IsSound P T start db earlier sound)
