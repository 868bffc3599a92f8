-- ===== src/Config.antt =====
-- The checks on the settings: src/fleet_management/config.py. `make_url(...).database` of
-- SQLAlchemy is a parameter.
pub mod Separation
mod Tests
use fleet_management.Prelude.{
  ℕ, zero, suc, String, Bool, true, false, not, ◌||◌, ◌&&◌, Option, none, some, List, [], ◌∷◌, ltb,
  if◌then◌else◌, str_eq,
}

pub data Environment : Type 0 where
  sandbox production : Environment

abbrev pub min_production_secret_length : ℕ
min_production_secret_length = 32

-- `_ALLOWED_DB_SUFFIXES`
abbrev pub allowed_db_suffixes : Environment → List String
allowed_db_suffixes sandbox = "_sandbox" ∷ "_test" ∷ []
allowed_db_suffixes production = "_production" ∷ []

-- The fields that the checks read.
pub record Settings : Type 0 where
  pub app_env : Environment
  pub debug : Bool
  pub database_url : String
  pub jwt_secret_key : Option String

abbrev pub is_production : Environment → Bool
is_production production = true
is_production sandbox = false

-- `str.endswith` of one text, and of a tuple of them
abbrev pub ends_with : String → String → Bool
ends_with String.[] t = str_eq "" t
ends_with (String.◌∷◌ c s) t = str_eq (String.◌∷◌ c s) t || ends_with s t

abbrev pub ends_with_any : String → List String → Bool
ends_with_any s [] = false
ends_with_any s (t ∷ ts) = ends_with s t || ends_with_any s ts

-- `len` of a text
abbrev pub text_length : String → ℕ
text_length String.[] = 0
text_length (String.◌∷◌ c s) = suc (text_length s)

-- The `ValueError`s of the validator.
pub data SettingsError : Type 0 where
  wrong_database debug_in_production weak_secret : SettingsError

abbrev pub secret_is_strong : Option String → Bool
secret_is_strong none = false
secret_is_strong (some key) = not (ltb (text_length key) min_production_secret_length)

-- no error is a check that passes
abbrev pub check_production_safety : Settings → Option SettingsError
check_production_safety s =
    if s.debug
    then some debug_in_production
    else if not (secret_is_strong s.jwt_secret_key)
    then some weak_secret
    else none

-- one check after the other
abbrev pub first_error : Option SettingsError → Option SettingsError → Option SettingsError
first_error none rest = rest
first_error (some e) rest = some e

-- `... or ""`
abbrev pub name_or_empty : Option String → String
name_or_empty none = ""
name_or_empty (some name) = name

module _ (database_of : String → Option String) where
  abbrev pub db_name : String → String
  db_name url = name_or_empty (database_of url)

  abbrev pub check_database_matches_environment : Settings → Option SettingsError
  check_database_matches_environment s =
      if not (ends_with_any (db_name s.database_url) (allowed_db_suffixes s.app_env))
      then some wrong_database
      else none

  unfoldable pub check_environment_rules : Settings → Option SettingsError
  check_environment_rules s =
      first_error (check_database_matches_environment s)
        (if is_production s.app_env then check_production_safety s else none)
