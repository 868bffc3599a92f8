-- ===== src/Registration/Tests.antt =====
-- The theorem on full stations at a small fleet.
use fleet_management.Prelude.{◌+◌, ◌≡◌, refl, true, some}
use fleet_management.Session.{Db, ok}
use fleet_management.Samples.{clock, small_fleet, station_b}
use fleet_management.Rental.Capacity.{FitsStations, parked, find_station}
use fleet_management.Registration.{new_vehicle, create_vehicle, plate_free}
use fleet_management.Registration.Overfull.{create_vehicle_overfills}

-- The second station has one place, and one vehicle stands there.
abbrev full_station : Db
full_station = (create_vehicle (clock 50) "AA0003" "Leaf" 2 small_fleet).1

overfull_before : (parked 2 full_station ≡ 1) × (find_station 2 full_station ≡ some station_b)
unfolding create_vehicle
overfull_before = (refl, refl)

new_plate : plate_free "AA0004" full_station ≡ true
unfolding create_vehicle
new_plate = refl

create_vehicle_overfills_example :
    let (answer, after) = create_vehicle (clock 100) "AA0004" "Zoe" 2 full_station in
    (answer ≡ ok (new_vehicle (clock 100) "AA0004" "Zoe" 2))
    × (parked 2 after ≡ 1 + 1)
    × (¬ FitsStations after)
create_vehicle_overfills_example =
    create_vehicle_overfills (clock 100) "AA0004" "Zoe" 2 station_b full_station overfull_before.1
      overfull_before.0 new_plate
