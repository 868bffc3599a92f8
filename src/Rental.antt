-- ===== src/Rental.antt =====
-- Rentals: `calculate_cost`, `start_rental` and `end_rental` of
-- src/fleet_management/services/rental_service.py. Amounts are whole cents.
pub mod Outcome
pub mod Consistency
pub mod Capacity
pub mod Cost
pub mod Answers
pub mod Race
pub mod Eligibility
pub mod Discount
mod Tests
use fleet_management.Prelude.{
  ℕ, ◌+◌, ◌-◌, ◌*◌, ◌/◌, max, Bool, not, ◌&&◌, Option, none, some, [], ◌∷◌, ◌++◌, ◌==◌, find?,
  update_where, is_some,
}
use fleet_management.Models.Fleet.{
  Vehicle, available, rented, Rental, active, completed, is_available, is_active,
}
use fleet_management.Session.{
  Db, rentals, Ambient, Entity, not_found, vehicle_not_available, station_full, attribute_error,
  Action, gets, or_raise, raise_if, commit, commit_checked, pure, ◌>>=◌, ◌>>◌,
}
use fleet_management.Station.{has_free_slot}

-- `RATE_PER_HOUR`, in cents
abbrev pub rate_per_hour : ℕ
rate_per_hour = 500

abbrev pub min_billable_hours : ℕ
min_billable_hours = 1

-- one hour in microseconds
abbrev pub hour : ℕ
hour = 3_600_000_000

-- `math.ceil((ended_at - started_at).total_seconds() / 3600)`, at least `MIN_BILLABLE_HOURS`: a
-- negative duration, which `-` has as 0, is billed alike.
unfoldable pub billable_hours : ℕ → ℕ → ℕ
billable_hours started_at ended_at =
    max ((ended_at - started_at + (hour - 1)) / hour) min_billable_hours

unfoldable pub calculate_cost : ℕ → ℕ → ℕ → ℕ
calculate_cost started_at ended_at rate = billable_hours started_at ended_at * rate

-- `db.get(Vehicle, k)` and `db.get(Rental, k)`
abbrev pub find_vehicle : ℕ → Db → Option Vehicle
find_vehicle k db = find? (λ v. v.id == k) db.vehicles

abbrev pub find_rental : ℕ → Db → Option Rental
find_rental k db = find? (λ r. r.id == k) db.rentals

abbrev pub new_rental : Ambient → ℕ → ℕ → Vehicle → Rental
new_rental env renter_id vehicle_id vehicle = record {
  id = env.new_id rentals 0;
  renter_id = renter_id;
  vehicle_id = vehicle_id;
  start_station_id = vehicle.station_id;
  end_station_id = none;
  started_at = env.now 0;
  ended_at = none;
  status = active;
}

-- The foreign keys of the new row, which the database checks at the flush: `renters.id` and
-- `stations.id` (models/rental.py).
abbrev pub rental_keys_hold : Rental → Db → Bool
rental_keys_hold rental db =
    is_some (find? (λ r. r.id == rental.renter_id) db.renters)
    && is_some (find? (λ s. s.id == rental.start_station_id) db.stations)

abbrev pub mark_rented : Vehicle → Vehicle
mark_rented v = record v { status = rented }

-- The staged changes: the new rental, and the vehicle's status.
abbrev pub stage_start : Rental → Db → Db
stage_start rental db = record db {
  rentals = db.rentals ++ rental ∷ [];
  vehicles = update_where (λ v. v.id == rental.vehicle_id) mark_rented db.vehicles;
}

unfoldable pub start_rental : Ambient → ℕ → ℕ → Action Rental
start_rental env renter_id vehicle_id = do
  found ← gets (find_vehicle vehicle_id)
  vehicle ← or_raise found (not_found Entity.vehicle vehicle_id)
  raise_if (not (is_available vehicle.status)) (vehicle_not_available Entity.vehicle vehicle_id)
  commit_checked (rental_keys_hold (new_rental env renter_id vehicle_id vehicle))
      (stage_start (new_rental env renter_id vehicle_id vehicle))
  pure (new_rental env renter_id vehicle_id vehicle)

abbrev pub complete_rental : ℕ → ℕ → Rental → Rental
complete_rental now end_station_id r = record r {
  ended_at = some now;
  end_station_id = some end_station_id;
  status = completed;
}

abbrev pub park_vehicle : ℕ → Vehicle → Vehicle
park_vehicle station_id v = record v { status = available; station_id = station_id }

abbrev pub stage_end : ℕ → ℕ → Rental → Db → Db
stage_end now end_station_id rental db = record db {
  rentals = update_where (λ r. r.id == rental.id) (complete_rental now end_station_id) db.rentals;
  vehicles =
      update_where (λ v. v.id == rental.vehicle_id) (park_vehicle end_station_id) db.vehicles;
}

-- `vehicle` is not tested for `None`: a missing one is an `AttributeError`.
unfoldable pub end_rental : Ambient → ℕ → ℕ → Action Rental
unfolding has_free_slot
end_rental env rental_id end_station_id = do
  found ← gets (find_rental rental_id)
  rental ← or_raise found (not_found Entity.rental rental_id)
  raise_if (not (is_active rental.status)) (vehicle_not_available Entity.rental rental_id)
  free ← has_free_slot end_station_id
  raise_if (not free) (station_full end_station_id)
  vehicle ← gets (find_vehicle rental.vehicle_id)
  or_raise vehicle attribute_error
  commit (stage_end (env.now 0) end_station_id rental)
  pure (complete_rental (env.now 0) end_station_id rental)
