-- ===== src/Station.antt =====
-- Stations and their free places: services/station_service.py of src/fleet_management.
use fleet_management.Prelude.{ℕ, Bool, not, ◌&&◌, find?, count_where, ltb, ◌==◌}
use fleet_management.Models.Fleet.{Station, Vehicle, is_rented}
use fleet_management.Session.{Entity, not_found, Action, gets, or_raise, pure, ◌>>=◌}

-- `db.get(Station, station_id)`, with the 404 of `get_station`
unfoldable pub get_station : ℕ → Action Station
get_station station_id = do
  station ← gets (λ db. find? (λ s. s.id == station_id) db.stations)
  or_raise station (not_found Entity.station station_id)

-- `Vehicle.station_id == station_id, Vehicle.status != VehicleStatus.RENTED`
abbrev pub is_parked : ℕ → Vehicle → Bool
is_parked station_id v = v.station_id == station_id && not (is_rented v.status)

unfoldable pub count_parked_vehicles : ℕ → Action ℕ
count_parked_vehicles station_id = gets (λ db. count_where (is_parked station_id) db.vehicles)

unfoldable pub has_free_slot : ℕ → Action Bool
unfolding get_station count_parked_vehicles
has_free_slot station_id = do
  station ← get_station station_id
  parked ← count_parked_vehicles station_id
  pure (ltb parked station.capacity)
