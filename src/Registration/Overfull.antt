-- ===== src/Registration/Overfull.antt =====
-- A vehicle that is registered at a station without a free place (`create_vehicle` of
-- api/vehicles.py).
use fleet_management.Prelude.{
  ℕ, ◌+◌, String, ◌≡◌, refl, true, some, [], ◌∷◌, count_where-append, arith,
}
use fleet_management.Models.Fleet.{Station}
use fleet_management.Session.{Db, Ambient, ok}
use fleet_management.Station.{is_parked}
use fleet_management.Rental.Capacity.{FitsStations, parked, find_station}
use fleet_management.Registration.{new_vehicle, stage_vehicle, create_vehicle, plate_free}

create_vehicle_succeeds :
    (env : Ambient) (license_plate model : String) (station_id : ℕ) (s : Station) (db : Db)
    → find_station station_id db ≡ some s
    → plate_free license_plate db ≡ true
    → create_vehicle env license_plate model station_id db ≡ (
      ok (new_vehicle env license_plate model station_id),
      stage_vehicle (new_vehicle env license_plate model station_id) db,
    )
unfolding create_vehicle
create_vehicle_succeeds env license_plate model station_id s db found free = ground arith

-- At a station whose places are all taken a vehicle with a new plate is registered all the same,
-- and afterwards the station holds one vehicle more than it has places.
pub create_vehicle_overfills :
    (env : Ambient) (license_plate model : String) (station_id : ℕ) (s : Station) (db : Db)
    → find_station station_id db ≡ some s
    → parked station_id db ≡ s.capacity
    → plate_free license_plate db ≡ true
    → let (answer, after) = create_vehicle env license_plate model station_id db in
      (answer ≡ ok (new_vehicle env license_plate model station_id))
      × (parked station_id after ≡ s.capacity + 1)
      × (¬ FitsStations after)
create_vehicle_overfills env license_plate model station_id s db found full free =
    let new = new_vehicle env license_plate model station_id in
    let after = stage_vehicle new db in
    let more : parked station_id after ≡ s.capacity + 1 =
      ground (arith, full, count_where-append (is_parked station_id) db.vehicles (new ∷ [])) in
    rw (create_vehicle_succeeds env license_plate model station_id s db found free)
      (refl, more, λ fits. omega (arith, more, fits station_id s found))
