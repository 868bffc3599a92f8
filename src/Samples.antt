-- ===== src/Samples.antt =====
-- A small fleet with two accounts, and a clock, for the tests of the modules.
use fleet_management.Prelude.{ℕ, ◌+◌, none, some, [], ◌∷◌, true}
use fleet_management.Models.Fleet.{Station, Vehicle, Rental, available, rented, active}
use fleet_management.Models.Account.{User, UserRole}
use fleet_management.Models.Privacy.{
  UserConsent, ConsentHistory, ConsentAction, MarketingMessage, marketing_email, granted, queued,
}
use fleet_management.Session.{Db, Ambient}

abbrev pub clock : ℕ → Ambient
clock start = record { now = λ i. start + i; new_id = λ _ i. start + i }

abbrev pub free_car : Vehicle
free_car = record {
  id = 1;
  license_plate = "AA0001";
  model = "Leaf";
  status = available;
  station_id = 1;
}

abbrev pub taken_car : Vehicle
taken_car = record {
  id = 2;
  license_plate = "AA0002";
  model = "Zoe";
  status = rented;
  station_id = 1;
}

abbrev pub station_a : Station
station_a = record { id = 1; address = "A"; capacity = 2 }

abbrev pub station_b : Station
station_b = record { id = 2; address = "B"; capacity = 1 }

abbrev pub trip : Rental
trip = record {
  id = 1;
  renter_id = 1;
  vehicle_id = 2;
  start_station_id = 1;
  end_station_id = none;
  started_at = 10;
  ended_at = none;
  status = active;
}

abbrev pub petro : User
petro = record {
  id = 1;
  email = "petro@example.com";
  hashed_password = "hash";
  full_name = "Petro";
  role = UserRole.user;
  phone = some "123";
  is_active = true;
  created_at = 0;
  anonymized_at = none;
}

abbrev pub olha : User
olha = record petro { id = 2; email = "olha@example.com"; full_name = "Olha" }

abbrev pub consent : UserConsent
consent = record {
  id = 1;
  user_id = 1;
  purpose = marketing_email;
  status = granted;
  policy_version = "2026-01";
  granted_at = some 5;
  withdrawn_at = none;
  updated_at = 5;
  source = "api";
}

abbrev pub consent_event : ConsentHistory
consent_event = record {
  id = 1;
  user_id = 1;
  purpose = marketing_email;
  action = ConsentAction.grant;
  policy_version = "2026-01";
  source = "api";
  occurred_at = 5;
}

abbrev pub message : ℕ → MarketingMessage
message k = record {
  id = k;
  user_id = k;
  campaign = "spring";
  status = queued;
  created_at = 7;
  processed_at = none;
}

abbrev pub small_fleet : Db
small_fleet = record {
  stations = station_a ∷ station_b ∷ [];
  vehicles = free_car ∷ taken_car ∷ [];
  renters = record { id = 1; full_name = "Petro"; license_number = "L1"; user_id = some 1 } ∷ [];
  rentals = trip ∷ [];
  users = petro ∷ olha ∷ [];
  user_consents = consent ∷ [];
  consent_history = consent_event ∷ [];
  user_activity =
      record {
        id = 1;
        user_id = 1;
        action = "login";
        occurred_at = 6;
        ip_address = none;
        user_agent = none;
      }
      ∷ [];
  audit_events = [];
  marketing_messages = message 1 ∷ message 2 ∷ [];
  analytics_events = record { id = 1; user_id = 1; event_name = "open"; occurred_at = 8 } ∷ [];
}
