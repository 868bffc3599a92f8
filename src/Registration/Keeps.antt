-- ===== src/Registration/Keeps.antt =====
-- How `create_vehicle` of api/vehicles.py can end, and what a new vehicle is to the fleet's
-- consistency.
use mathlib.Core.Path.{subst}
use fleet_management.Prelude.{
  ℕ, String, ◌≡◌, sym, ◌⊎◌, inl, inr, none, some, [], ◌∷◌, find?, find?-append, ◌==◌,
  HasUniqueKeys-append, Option-cases, Bool-cases, arith,
}
use fleet_management.Models.Fleet.{Station, Vehicle}
use fleet_management.Session.{Db, vehicles, Ambient, ok}
use fleet_management.Rental.{find_vehicle}
use fleet_management.Rental.Outcome.{Rejected, Rejected-same}
use fleet_management.Rental.Consistency.{IsConsistent, active_rentals, rented_mark}
use fleet_management.Registration.{new_vehicle, stage_vehicle, plate_free, create_vehicle}

-- a call that raised nothing
pub record Added (env : Ambient) (license_plate model : String) (station_id : ℕ) (db : Db)
    : Type 0 where
  pub station : Station
  pub found : find? (λ s. s.id == station_id) db.stations ≡ some station
  pub result : create_vehicle env license_plate model station_id db ≡ (
    ok (new_vehicle env license_plate model station_id),
    stage_vehicle (new_vehicle env license_plate model station_id) db,
  )

pub create_vehicle_outcome :
    (env : Ambient) (license_plate model : String) (station_id : ℕ) (db : Db)
    → Rejected db (create_vehicle env license_plate model station_id db)
      ⊎ Added env license_plate model station_id db
unfolding create_vehicle
create_vehicle_outcome env license_plate model station_id db =
    elim (Option-cases (find? (λ s. s.id == station_id) db.stations)) [
      | inl missing ↦ inl (ground arith)
      | inr (s, found) ↦ elim (Bool-cases (plate_free license_plate db)) [
        | inl free ↦ inr (record { station = s; found = found; result = ground arith })
        | inr taken ↦ inl (ground arith)
      ]
    ]

stage_vehicle-one :
    (env : Ambient) (license_plate model : String) (station_id k : ℕ) (db : Db)
    → find_vehicle (env.new_id vehicles 0) db ≡ none
    → active_rentals k db ≡ rented_mark (find_vehicle k db)
    → active_rentals k db
      ≡ rented_mark
          (find_vehicle k (stage_vehicle (new_vehicle env license_plate model station_id) db))
stage_vehicle-one env license_plate model station_id k db fresh one = ground (
  arith,
  find?-append (λ (v : Vehicle). v.id == k) db.vehicles
      (new_vehicle env license_plate model station_id ∷ []),
)

-- A new vehicle with an id that no vehicle has keeps the fleet consistent.
pub create_vehicle-IsConsistent :
    (env : Ambient) (license_plate model : String) (station_id : ℕ) (db : Db)
    → find_vehicle (env.new_id vehicles 0) db ≡ none
    → IsConsistent db
    → IsConsistent (create_vehicle env license_plate model station_id db).1
create_vehicle-IsConsistent env license_plate model station_id db fresh c =
    elim (create_vehicle_outcome env license_plate model station_id db) [
      | inl rejected ↦ subst IsConsistent (sym (Rejected-same _ rejected)) c
      | inr added ↦ rw added.result (record {
        vehicle_keys =
            HasUniqueKeys-append (λ (v : Vehicle). v.id) db.vehicles
              (new_vehicle env license_plate model station_id) c.vehicle_keys fresh;
        rental_keys = c.rental_keys;
        one_rental =
            λ k. stage_vehicle-one env license_plate model station_id k db fresh (c.one_rental k);
      })
    ]
