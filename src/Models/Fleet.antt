-- ===== src/Models/Fleet.antt =====
-- The tables of the fleet: models/station.py, models/vehicle.py, models/renter.py and
-- models/rental.py of src/fleet_management. A moment is a number of microseconds.
use fleet_management.Prelude.{ℕ, String, Option, Bool, true, false}

pub record Station : Type 0 where
  pub id : ℕ
  pub address : String
  pub capacity : ℕ

pub data VehicleStatus : Type 0 where
  available rented maintenance : VehicleStatus

pub record Vehicle : Type 0 where
  pub id : ℕ
  pub license_plate : String
  pub model : String
  pub status : VehicleStatus
  pub station_id : ℕ

pub record Renter : Type 0 where
  pub id : ℕ
  pub full_name : String
  pub license_number : String
  pub user_id : Option ℕ

pub data RentalStatus : Type 0 where
  active completed cancelled : RentalStatus

pub record Rental : Type 0 where
  pub id : ℕ
  pub renter_id : ℕ
  pub vehicle_id : ℕ
  pub start_station_id : ℕ
  pub end_station_id : Option ℕ
  pub started_at : ℕ
  pub ended_at : Option ℕ
  pub status : RentalStatus

-- `status == VehicleStatus.AVAILABLE` and the like
abbrev pub is_available : VehicleStatus → Bool
is_available available = true
is_available _ = false

abbrev pub is_rented : VehicleStatus → Bool
is_rented rented = true
is_rented _ = false

abbrev pub is_active : RentalStatus → Bool
is_active active = true
is_active _ = false

abbrev pub is_completed : RentalStatus → Bool
is_completed completed = true
is_completed _ = false

abbrev pub is_cancelled : RentalStatus → Bool
is_cancelled cancelled = true
is_cancelled _ = false
