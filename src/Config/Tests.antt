-- ===== src/Config/Tests.antt =====
-- The theorems on the settings, where two URLs name one database.
use fleet_management.Prelude.{String, ◌≡◌, refl, false, Option, none, some, if◌then◌else◌, str_eq}
use fleet_management.Config.{Settings, production, check_environment_rules}
use fleet_management.Config.Separation.{environments_apart}

abbrev live : Settings
live = record {
  app_env = production;
  debug = false;
  database_url = "fleet_production";
  jwt_secret_key = some "0123456789abcdef0123456789abcdef";
}

-- the same database on another host
abbrev elsewhere : Settings
elsewhere = record live { database_url = "backup/fleet_production" }

-- what stands behind the last slash of a URL
abbrev last_part : String → Option String
last_part url = if str_eq url "backup/fleet_production" then some "fleet_production" else some url

accepted_elsewhere : check_environment_rules last_part elsewhere ≡ none
unfolding check_environment_rules
accepted_elsewhere = refl

accepted : check_environment_rules last_part live ≡ none
unfolding check_environment_rules
accepted = refl

environments_apart_example : live.app_env ≡ elsewhere.app_env
environments_apart_example =
    environments_apart last_part live elsewhere refl accepted accepted_elsewhere
