-- ===== src/App/Tests.antt =====
-- The theorems on the application at the small fleet.
use fleet_management.Prelude.{String, ◌≡◌, ◌⊎◌, ℕ, refl, true, false, Option, none, some, arith}
use fleet_management.Samples.{clock, small_fleet}
use fleet_management.Config.{Settings, production, check_environment_rules}
use fleet_management.Rental.{find_vehicle}
use fleet_management.Rental.Consistency.{IsConsistent, active_rentals, rented_mark}
use fleet_management.RentalRoutes.{end_rental_route}
use fleet_management.App.{respond, create_app, lifespan}
use fleet_management.App.Answers.{end_rental_status}
use fleet_management.App.Exposure.{production_exposes_nothing}

abbrev whole : String → Option String
whole url = some url

abbrev live : Settings
live = record {
  app_env = production;
  debug = false;
  database_url = "fleet_production";
  jwt_secret_key = some "0123456789abcdef0123456789abcdef";
}

accepted : check_environment_rules whole live ≡ none
unfolding check_environment_rules
accepted = refl

production_exposes_nothing_example :
    (create_app live
      ≡ record { debug = false; docs_url = none; redoc_url = none; openapi_url = none })
    × (lifespan live ≡ true)
production_exposes_nothing_example = production_exposes_nothing whole live refl accepted

one_rental_each : (k : ℕ) → active_rentals k small_fleet ≡ rented_mark (find_vehicle k small_fleet)
one_rental_each k = ground arith

fleet_ok : IsConsistent small_fleet
fleet_ok = record {
  vehicle_keys = (refl, (refl, tt));
  rental_keys = (refl, tt);
  one_rental = one_rental_each;
}

end_rental_status_example :
    let status = (respond 200 "r-1" (end_rental_route (clock 100) 1 2 small_fleet).0).status_code in
    (status ≡ 200) ⊎ ((status ≡ 404) ⊎ (status ≡ 409))
end_rental_status_example = end_rental_status (clock 100) "r-1" 1 2 small_fleet fleet_ok
