-- ===== src/System/Refines.antt =====
-- The requests of src/fleet_management refine the moves of the fleet.
use mathlib.Core.Path.{subst}
use fleet_management.Prelude.{
  ℕ, String, ◌≡◌, refl, sym, none, [], ◌∷◌, ◌==◌, find?-append, inl, inr, arith,
}
use fleet_management.Models.Fleet.{Vehicle, available}
use fleet_management.Models.Account.{User}
use fleet_management.Session.{Db, vehicles, Ambient}
use fleet_management.Account.{Passwords, Tokens}
use fleet_management.Registration.{create_vehicle, new_vehicle, stage_vehicle}
use fleet_management.Registration.Keeps.{create_vehicle_outcome}
use fleet_management.Rental.{start_rental, end_rental, find_vehicle, new_rental}
use fleet_management.Rental.Consistency.{IsConsistent, found_by_own_id}
use fleet_management.Rental.Outcome.{Rejected-same, start_rental_outcome, end_rental_outcome}
use fleet_management.PrivacyRoutes.{
  SubjectAccess, Handler, route, export_personal_data, anonymize, create_renter_profile,
  grant_consent, revoke_consent, queue_marketing_email, track_analytics_event,
}
use fleet_management.System.{
  IsSound, Step, registers, logs_in, adds_station, adds_vehicle, adds_renter, starts, ends,
  links_profile, grants, revokes, exports, erases, queues, tracks, dispatches, Reach, here, next,
}
use fleet_management.System.Sound.{Reach-IsSound}
use fleet_management.System.Frame.{
  SameFleet, login-SameAll, create_station-SameAll, create_user-SameFleet,
}
use fleet_management.System.Handlers.{route-keeps}
use fleet_management.System.Bystanders.{
  untouched, create_renter-SameFleet, create_renter_profile-SameFleet, grant_consent-SameFleet,
  revoke_consent-SameFleet, export_personal_data-SameFleet, queue_marketing_email-SameFleet,
  track_analytics_event-SameFleet, anonymize-SameFleet, dispatch-SameFleet,
}
use fleet_management.System.View.{
  Fleet, Move, stays, joins, departs, returns, Moved, view, waiting, stage_start-Moved,
  stage_end-Moved, driven,
}

SameFleet-Move : (db after : Db) → SameFleet db after → Move (view db) (view after)
SameFleet-Move db after same = stays (λ k. rw same.vehicles (rw same.rentals refl))

start_rental-Move :
    (env : Ambient) (renter_id vehicle_id : ℕ) (db : Db)
    → IsConsistent db
    → Move (view db) (view (start_rental env renter_id vehicle_id db).1)
start_rental-Move env renter_id vehicle_id db c =
    elim (start_rental_outcome env renter_id vehicle_id db) [
      | inl failed ↦
          SameFleet-Move db _ (subst (SameFleet db) (sym (Rejected-same _ failed)) (untouched db))
      | inr s ↦ rw s.result (
          departs vehicle_id s.vehicle.station_id renter_id (ground (arith, s.found, s.free)) (
            stage_start-Moved (new_rental env renter_id vehicle_id s.vehicle) db s.vehicle s.found
              s.free refl (c.one_rental vehicle_id)))
    ]

end_rental-Move :
    (env : Ambient) (rental_id station_id : ℕ) (db : Db)
    → IsConsistent db
    → Move (view db) (view (end_rental env rental_id station_id db).1)
end_rental-Move env rental_id station_id db c =
    elim (end_rental_outcome env rental_id station_id db) [
      | inl failed ↦
          SameFleet-Move db _ (subst (SameFleet db) (sym (Rejected-same _ failed)) (untouched db))
      | inr s ↦
          let own = found_by_own_id rental_id s.rental db s.found in
          rw s.result (
            returns s.rental.vehicle_id s.rental.renter_id station_id
              (driven s.rental db s.vehicle own s.of_vehicle s.open_rental
                (c.one_rental s.rental.vehicle_id))
              (stage_end-Moved (env.now 0) station_id s.rental db s.vehicle c.rental_keys own
                s.of_vehicle))
    ]

stage_vehicle-Moved :
    (v : Vehicle) (db : Db)
    → v.status ≡ available
    → find_vehicle v.id db ≡ none
    → Moved v.id (waiting v.station_id) (view db) (view (stage_vehicle v db))
stage_vehicle-Moved v db new fresh = record {
  there = ground (arith, find?-append (λ (w : Vehicle). w.id == v.id) db.vehicles (v ∷ []));
  others = λ k ne. ground (arith, find?-append (λ (w : Vehicle). w.id == k) db.vehicles (v ∷ []));
}

create_vehicle-Move :
    (env : Ambient) (license_plate model : String) (station_id : ℕ) (db : Db)
    → find_vehicle (env.new_id vehicles 0) db ≡ none
    → Move (view db) (view (create_vehicle env license_plate model station_id db).1)
create_vehicle-Move env license_plate model station_id db fresh =
    elim (create_vehicle_outcome env license_plate model station_id db) [
      | inl failed ↦
          SameFleet-Move db _ (subst (SameFleet db) (sym (Rejected-same _ failed)) (untouched db))
      | inr added ↦ rw added.result (
          joins (env.new_id vehicles 0) station_id (rw fresh refl)
            (stage_vehicle-Moved (new_vehicle env license_plate model station_id) db refl fresh))
    ]

route-Move :
    {A : Type 0} (env : Ambient) (event correlation_id : String) (user_id : ℕ) (actor : User)
    (handler : Handler A) (db after : Db)
    → ((access : SubjectAccess) → SameFleet db (handler access db).1)
    → after ≡ (route env event correlation_id user_id actor handler db).1
    → Move (view db) (view after)
route-Move env event correlation_id user_id actor handler db after handled e =
    SameFleet-Move db after (
      subst (SameFleet db) (sym e) (
        route-keeps (SameFleet db) env event correlation_id user_id actor handler db
          (λ e. record { vehicles = refl; rentals = refl }) handled))

-- Every request on a sound database is a move of the fleet: nothing moves, a vehicle joins and waits
-- at its station, a waiting vehicle departs with a renter, or the vehicle of a renter returns and
-- waits at a station; no other vehicle changes its place.
pub Step-Move :
    (P : Passwords) (T : Tokens) (db after : Db)
    → Step P T db after
    → IsSound db
    → Move (view db) (view after)
Step-Move P T db after (registers env salt email password full_name role phone e) sound =
    SameFleet-Move db after (
      subst (SameFleet db) (sym e)
        (create_user-SameFleet P env salt email password full_name role phone db))
Step-Move P T db after (logs_in env expire_minutes username password ip_address user_agent e)
      sound =
    SameFleet-Move db after (
      subst (SameFleet db) (sym e)
        (login-SameAll T P env expire_minutes username password ip_address user_agent db).fleet)
Step-Move P T db after (adds_station env address capacity e) sound =
    SameFleet-Move db after
      (subst (SameFleet db) (sym e) (create_station-SameAll env address capacity db).fleet)
Step-Move P T db after (adds_vehicle env license_plate model station_id fresh e) sound =
    rw e (create_vehicle-Move env license_plate model station_id db fresh)
Step-Move P T db after (adds_renter env full_name license_number e) sound =
    SameFleet-Move db after
      (subst (SameFleet db) (sym e) (create_renter-SameFleet env full_name license_number db))
Step-Move P T db after (starts env renter_id vehicle_id fresh e) sound =
    rw e (start_rental-Move env renter_id vehicle_id db sound.consistent)
Step-Move P T db after (ends env rental_id station_id e) sound =
    rw e (end_rental-Move env rental_id station_id db sound.consistent)
Step-Move P T db after
      (links_profile env event correlation_id user_id actor full_name license_number e) sound =
    route-Move env event correlation_id user_id actor
      (create_renter_profile env full_name license_number) db after
      (λ access. create_renter_profile-SameFleet env access db full_name license_number) e
Step-Move P T db after (grants env event correlation_id user_id actor purpose version source e)
      sound =
    route-Move env event correlation_id user_id actor
      (grant_consent (λ d. d) env purpose version source) db after
      (λ access. grant_consent-SameFleet env access db purpose version source) e
Step-Move P T db after (revokes env event correlation_id user_id actor purpose source e) sound =
    route-Move env event correlation_id user_id actor (revoke_consent env purpose source) db after
      (λ access. revoke_consent-SameFleet env access db purpose source) e
Step-Move P T db after (exports env event correlation_id user_id actor e) sound =
    route-Move env event correlation_id user_id actor (export_personal_data env) db after
      (λ access. export_personal_data-SameFleet env access db) e
Step-Move P T db after (erases env rnd event correlation_id user_id actor e) sound =
    route-Move env event correlation_id user_id actor (anonymize env rnd) db after
      (λ access. anonymize-SameFleet env rnd access db) e
Step-Move P T db after (queues env event correlation_id user_id actor campaign fresh e) sound =
    route-Move env event correlation_id user_id actor (queue_marketing_email env campaign) db after
      (λ access. queue_marketing_email-SameFleet env access db campaign) e
Step-Move P T db after (tracks env event correlation_id user_id actor event_name e) sound =
    route-Move env event correlation_id user_id actor (track_analytics_event env event_name) db
      after (λ access. track_analytics_event-SameFleet env access db event_name) e
Step-Move P T db after (dispatches env e) sound =
    SameFleet-Move db after (subst (SameFleet db) (sym e) (dispatch-SameFleet env db))

-- A sequence of moves.
pub data Moves (start : Fleet) : Fleet → Type 0 where
  rest : Moves start start
  move : {before after : Fleet} → Moves start before → Move before after → Moves start after

-- However many requests and jobs follow one another from a sound database, what they make of the
-- fleet is a sequence of moves, one for each.
pub Reach-Moves :
    (P : Passwords) (T : Tokens) (start db : Db)
    → Reach P T start db
    → IsSound start
    → Moves (view start) (view db)
Reach-Moves P T start _ here sound = rest
Reach-Moves P T start after (next {db} earlier step) sound =
    move (Reach-Moves P T start db earlier sound)
      (Step-Move P T db after step (Reach-IsSound P T start db earlier sound))
