-- ===== src/App/Exposure.antt =====
-- What an application in production shows (src/fleet_management/main.py with config.py).
use fleet_management.Prelude.{◌≤◌, String, ◌≡◌, refl, true, false, Option, none, some, arith}
use fleet_management.Config.{Settings, production, text_length, check_environment_rules}
use fleet_management.Config.Separation.{production_is_safe}
use fleet_management.App.{create_app, lifespan, is_set}

long_key_is_set :
    (key : Option String) (k : String) → key ≡ some k → 32 ≤ text_length k → is_set key ≡ true
long_key_is_set key String.[] e long = ground arith
long_key_is_set key (String.◌∷◌ c s) e long = rw e refl

-- An application whose settings are for production and were accepted starts, and it has neither the
-- debug mode nor the pages and the schema of the interactive documentation.
pub production_exposes_nothing :
    (database_of : String → Option String) (s : Settings)
    → s.app_env ≡ production
    → check_environment_rules database_of s ≡ none
    → (create_app s
        ≡ record { debug = false; docs_url = none; redoc_url = none; openapi_url = none })
      × (lifespan s ≡ true)
unfolding create_app lifespan
production_exposes_nothing database_of s live accepted =
    let safe = production_is_safe database_of s live accepted in
    let (key, found, long) = safe.2 in
    (rw live (rw safe.1 refl), long_key_is_set s.jwt_secret_key key found long)
