-- ===== src/System/Finality.antt =====
-- An erasure is final: no later request of src/fleet_management changes the account.
use mathlib.Core.Path.{subst}
use fleet_management.Prelude.{ℕ, String, ◌≡◌, sym, some}
use fleet_management.Models.Account.{User}
use fleet_management.Session.{Db, Ambient}
use fleet_management.Account.{Passwords, Tokens}
use fleet_management.Erasure.Outcome.{find_user}
use fleet_management.PrivacyRoutes.{
  SubjectAccess, Handler, route, export_personal_data, anonymize, create_renter_profile,
  grant_consent, revoke_consent, queue_marketing_email, track_analytics_event,
}
use fleet_management.System.{
  Step, registers, logs_in, adds_station, adds_vehicle, adds_renter, starts, ends, links_profile,
  grants, revokes, exports, erases, queues, tracks, dispatches, Reach, here, next,
}
use fleet_management.System.Frame.{login-SameAll, create_station-SameAll}
use fleet_management.System.Handlers.{route-keeps}
use fleet_management.System.Sound.{
  start_rental-FleetOnly, end_rental-FleetOnly, create_vehicle-FleetOnly,
}
use fleet_management.System.Accounts.{
  Stays, same_users, create_user-Stays, create_renter-Stays, create_renter_profile-Stays,
  grant_consent-Stays, revoke_consent-Stays, export_personal_data-Stays, anonymize-Stays,
  queue_marketing_email-Stays, track_analytics_event-Stays, dispatch-Stays,
}

-- A route with a handler that leaves the row.
route-Stays :
    {A : Type 0} (k t : ℕ) (u : User) (gone : u.anonymized_at ≡ some t) (env : Ambient)
    (event correlation_id : String) (user_id : ℕ) (actor : User) (handler : Handler A) (db : Db)
    → ((access : SubjectAccess) → Stays k t u gone (handler access db).1)
    → Stays k t u gone db
    → Stays k t u gone (route env event correlation_id user_id actor handler db).1
route-Stays k t u gone env event correlation_id user_id actor handler db handled stays =
    route-keeps (Stays k t u gone) env event correlation_id user_id actor handler db (λ e. stays)
      handled

module _ (P : Passwords) (T : Tokens) where
  Step-Stays :
      (k t : ℕ) (u : User) (gone : u.anonymized_at ≡ some t) (db after : Db)
      → Step P T db after
      → Stays k t u gone db
      → Stays k t u gone after
  Step-Stays k t u gone db after (registers env salt email password full_name role phone e) stays =
      subst (Stays k t u gone) (sym e)
        (create_user-Stays k t u gone P env salt email password full_name role phone db stays)
  Step-Stays k t u gone db after
        (logs_in env expire_minutes username password ip_address user_agent e) stays =
      subst (Stays k t u gone) (sym e) (
        same_users k t u gone db _
          (login-SameAll T P env expire_minutes username password ip_address user_agent db).columns
          stays)
  Step-Stays k t u gone db after (adds_station env address capacity e) stays =
      subst (Stays k t u gone) (sym e)
        (same_users k t u gone db _ (create_station-SameAll env address capacity db).columns stays)
  Step-Stays k t u gone db after (adds_vehicle env license_plate model station_id fresh e) stays =
      subst (Stays k t u gone) (sym e) (
        same_users k t u gone db _
          (create_vehicle-FleetOnly env license_plate model station_id db).columns stays)
  Step-Stays k t u gone db after (adds_renter env full_name license_number e) stays =
      subst (Stays k t u gone) (sym e)
        (create_renter-Stays k t u gone env full_name license_number db stays)
  Step-Stays k t u gone db after (starts env renter_id vehicle_id fresh e) stays =
      subst (Stays k t u gone) (sym e) (
        same_users k t u gone db _ (start_rental-FleetOnly env renter_id vehicle_id db).columns
          stays)
  Step-Stays k t u gone db after (ends env rental_id station_id e) stays =
      subst (Stays k t u gone) (sym e) (
        same_users k t u gone db _ (end_rental-FleetOnly env rental_id station_id db).columns stays)
  Step-Stays k t u gone db after
        (links_profile env event correlation_id user_id actor full_name license_number e) stays =
      subst (Stays k t u gone) (sym e) (
        route-Stays k t u gone env event correlation_id user_id actor
          (create_renter_profile env full_name license_number) db
          (λ access.
            create_renter_profile-Stays k t u gone env access db stays full_name license_number)
          stays)
  Step-Stays k t u gone db after
        (grants env event correlation_id user_id actor purpose version source e) stays =
      subst (Stays k t u gone) (sym e) (
        route-Stays k t u gone env event correlation_id user_id actor
          (grant_consent (λ d. d) env purpose version source) db
          (λ access. grant_consent-Stays k t u gone env access db stays purpose version source)
          stays)
  Step-Stays k t u gone db after (revokes env event correlation_id user_id actor purpose source e)
        stays =
      subst (Stays k t u gone) (sym e) (
        route-Stays k t u gone env event correlation_id user_id actor
          (revoke_consent env purpose source) db
          (λ access. revoke_consent-Stays k t u gone env access db stays purpose source) stays)
  Step-Stays k t u gone db after (exports env event correlation_id user_id actor e) stays =
      subst (Stays k t u gone) (sym e) (
        route-Stays k t u gone env event correlation_id user_id actor (export_personal_data env) db
          (λ access. export_personal_data-Stays k t u gone env access db stays) stays)
  Step-Stays k t u gone db after (erases env rnd event correlation_id user_id actor e) stays =
      subst (Stays k t u gone) (sym e) (
        route-Stays k t u gone env event correlation_id user_id actor (anonymize env rnd) db
          (λ access. anonymize-Stays k t u gone env access db stays rnd) stays)
  Step-Stays k t u gone db after (queues env event correlation_id user_id actor campaign fresh e)
        stays =
      subst (Stays k t u gone) (sym e) (
        route-Stays k t u gone env event correlation_id user_id actor
          (queue_marketing_email env campaign) db
          (λ access. queue_marketing_email-Stays k t u gone env access db stays campaign) stays)
  Step-Stays k t u gone db after (tracks env event correlation_id user_id actor event_name e)
        stays =
      subst (Stays k t u gone) (sym e) (
        route-Stays k t u gone env event correlation_id user_id actor
          (track_analytics_event env event_name) db
          (λ access. track_analytics_event-Stays k t u gone env access db stays event_name) stays)
  Step-Stays k t u gone db after (dispatches env e) stays =
      subst (Stays k t u gone) (sym e) (dispatch-Stays k t u gone env db stays)

  -- An erasure is final: the row of an account that was anonymized is the same row after whatever
  -- requests and jobs follow, with the name, the address and the closed state that it has.
  pub Reach-final :
      (start db : Db) (k t : ℕ) (u : User)
      → Reach P T start db
      → find_user k start ≡ some u
      → u.anonymized_at ≡ some t
      → find_user k db ≡ some u
  Reach-final start _ k t u here found gone = found
  Reach-final start after k t u (next {db} earlier step) found gone =
      Step-Stays k t u gone db after step (Reach-final start db k t u earlier found gone)
