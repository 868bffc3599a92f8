-- ===== src/Registration.antt =====
-- The routes that put stations, vehicles, renters and administrators into the tables, and that list
-- them: api/stations.py, api/vehicles.py, api/renters.py and api/admin.py of src/fleet_management.
-- A negative capacity, which the schema admits and which lets nothing park, is left aside.
pub mod Overfull
pub mod Keeps
mod Tests
use fleet_management.Prelude.{
  ℕ, String, Bool, not, none, List, [], ◌∷◌, ◌++◌, map, find?, is_some, order_by, ◌==◌, str_eq,
}
use fleet_management.Models.Fleet.{Station, Vehicle, VehicleStatus, available, Renter}
use fleet_management.Models.Account.{UserRole, User}
use fleet_management.Session.{
  Db, stations, vehicles, renters, Ambient, http_exception, Action, gets, or_raise, commit,
  commit_checked, pure, ◌>>=◌, ◌>>◌,
}
use fleet_management.Station.{get_station}
use fleet_management.Account.{Passwords, create_user}

abbrev pub new_station : Ambient → String → ℕ → Station
new_station env address capacity = record {
  id = env.new_id stations 0;
  address = address;
  capacity = capacity;
}

unfoldable pub create_station : Ambient → String → ℕ → Action Station
create_station env address capacity = do
  commit λ db. record db { stations = db.stations ++ new_station env address capacity ∷ [] }
  pure (new_station env address capacity)

-- The status is the column's default.
abbrev pub new_vehicle : Ambient → String → String → ℕ → Vehicle
new_vehicle env license_plate model station_id = record {
  id = env.new_id vehicles 0;
  license_plate = license_plate;
  model = model;
  status = available;
  station_id = station_id;
}

abbrev pub stage_vehicle : Vehicle → Db → Db
stage_vehicle vehicle db = record db { vehicles = db.vehicles ++ vehicle ∷ [] }

-- The unique column `vehicles.license_plate`.
abbrev pub plate_free : String → Db → Bool
plate_free license_plate db =
    not (is_some (find? (λ v. str_eq v.license_plate license_plate) db.vehicles))

-- `create_vehicle` looks the station up and does not ask for a free place. The invalidation of the
-- cached list has no part in the answer.
unfoldable pub create_vehicle : Ambient → String → String → ℕ → Action Vehicle
unfolding get_station
create_vehicle env license_plate model station_id = do
  get_station station_id
  commit_checked (plate_free license_plate)
      (stage_vehicle (new_vehicle env license_plate model station_id))
  pure (new_vehicle env license_plate model station_id)

abbrev pub new_renter : Ambient → String → String → Renter
new_renter env full_name license_number = record {
  id = env.new_id renters 0;
  full_name = full_name;
  license_number = license_number;
  user_id = none;
}

-- The unique column `renters.license_number`.
abbrev pub license_free : String → Db → Bool
license_free license_number db =
    not (is_some (find? (λ r. str_eq r.license_number license_number) db.renters))

abbrev pub stage_renter : Renter → Db → Db
stage_renter renter db = record db { renters = db.renters ++ renter ∷ [] }

unfoldable pub create_renter : Ambient → String → String → Action Renter
create_renter env full_name license_number = do
  commit_checked (license_free license_number)
      (stage_renter (new_renter env full_name license_number))
  pure (new_renter env full_name license_number)

-- An administrator, without a phone number.
unfoldable pub create_admin :
    Passwords → Ambient → (salt : ℕ) → String → String → String → Action User
create_admin P env salt email password full_name =
    create_user P env salt email password full_name UserRole.admin none

unfoldable pub list_stations : Db → List Station
list_stations db = order_by (λ s. s.id) db.stations

unfoldable pub list_vehicles : Db → List Vehicle
list_vehicles db = order_by (λ v. v.id) db.vehicles

unfoldable pub list_renters : Db → List Renter
list_renters db = db.renters

unfoldable pub list_users : Db → List User
list_users db = order_by (λ u. u.id) db.users

-- The routes for one row answer 404 themselves.
unfoldable pub get_station_route : ℕ → Action Station
get_station_route station_id = do
  station ← gets (λ db. find? (λ s. s.id == station_id) db.stations)
  or_raise station (http_exception 404)

unfoldable pub get_vehicle_route : ℕ → Action Vehicle
get_vehicle_route vehicle_id = do
  vehicle ← gets (λ db. find? (λ v. v.id == vehicle_id) db.vehicles)
  or_raise vehicle (http_exception 404)

unfoldable pub get_renter_route : ℕ → Action Renter
get_renter_route renter_id = do
  renter ← gets (λ db. find? (λ r. r.id == renter_id) db.renters)
  or_raise renter (http_exception 404)
