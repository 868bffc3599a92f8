-- ===== src/Account/Tests.antt =====
-- The theorems on accounts with trivial hashing and tokens.
use fleet_management.Prelude.{String, ◌≡◌, ◌≢◌, refl, true, false, none, some, arith}
use fleet_management.Models.Account.{UserRole, User}
use fleet_management.Session.{ok, err, http_exception}
use fleet_management.Samples.{clock, small_fleet, petro}
use fleet_management.Account.{
  Passwords, Tokens, Payload, LoginAnswer, second, minute, get_user_by_email, new_user, create_user,
  authenticate, get_current_user, decode_access_token, find_account, login, payload,
}
use fleet_management.Account.Samples.{plain, open_tokens}
use fleet_management.Account.Login.{get_current_user-login}
use fleet_management.Account.Command.{
  created, Bootstrapped, create_admin_command, create_admin_command_lem,
}
use fleet_management.Account.Lockout.{locked_out}
use fleet_management.Erasure.{Randomness, Actions, AnonymizeOutcome, anonymize_user}
use fleet_management.Erasure.Samples.{random, done_actions, done}

petro_known : authenticate plain "petro@example.com" "hash" small_fleet ≡ some petro
unfolding authenticate fleet_management.Account.normalize_email
petro_known = refl

abbrev ivan : User
ivan = record {
  id = 100;
  email = "ivan@example.com";
  hashed_password = "secret77";
  full_name = "Ivan";
  role = UserRole.admin;
  phone = none;
  is_active = true;
  created_at = 100;
  anonymized_at = none;
}

ivan_commanded :
    (create_admin_command plain
      (clock 100)
      0
      some
      "ivan@example.com"
      "Ivan"
      (some "")
      "secret77"
      small_fleet).0
    ≡ created ivan
unfolding create_admin_command create_user fleet_management.Account.normalize_email
ivan_commanded = refl

create_admin_command_lem_example :
    (valid : String) × (some "ivan@example.com" ≡ some valid)
    × Bootstrapped plain
        (clock 100)
        0
        valid
        "secret77"
        (create_admin_command plain
          (clock 100)
          0
          some
          "ivan@example.com"
          "Ivan"
          (some "")
          "secret77"
          small_fleet).1
        ivan
create_admin_command_lem_example =
    create_admin_command_lem plain (clock 100) 0 some "ivan@example.com" "Ivan" (some "") "secret77"
      small_fleet ivan ivan_commanded

get_current_user-login_example :
    (answer : LoginAnswer open_tokens) × ((login open_tokens plain
        (clock 100)
        30
        "petro@example.com"
        "hash"
        none
        none
        small_fleet).0
      ≡ ok answer)
    × (get_current_user open_tokens 5_000_000 answer.access_token small_fleet
        ≡ (ok petro, small_fleet))
get_current_user-login_example =
    get_current_user-login open_tokens plain (clock 100) 30 "petro@example.com" "hash" none none
      petro small_fleet small_fleet 5_000_000 petro_known refl refl (omega arith) (omega arith)

abbrev gone_petro : User
gone_petro = record petro {
  email = "anon-e1@anon.invalid";
  full_name = "Anonymized User";
  phone = none;
  hashed_password = "unusable";
  is_active = false;
  anonymized_at = some 100;
}

abbrev old_token : Payload
old_token = record { sub = "a"; role = UserRole.user; iat = 0; exp = 1800 }

petro_erased_now :
    ((anonymize_user (clock 100) random 1 2 "c-1" small_fleet).0 ≡ ok done)
    × (find_account 1 (anonymize_user (clock 100) random 1 2 "c-1" small_fleet).1 ≡ some gone_petro)
unfolding anonymize_user fleet_management.Erasure.unique_columns_hold fleet_management.Erasure.erase
    fleet_management.Consent.withdraw_all
petro_erased_now = (refl, refl)

names_petro : decode_access_token open_tokens 200 old_token ≡ some 1
unfolding decode_access_token
names_petro = refl

locked_out_example :
    let after = (anonymize_user (clock 100) random 1 2 "c-1" small_fleet).1 in
    (get_current_user open_tokens 200 old_token after ≡ (err (http_exception 401), after))
    × (authenticate plain "anon-e1@anon.invalid" "unusable" after ≢ some gone_petro)
locked_out_example =
    locked_out open_tokens plain (clock 100) random 1 2 "c-1" "anon-e1@anon.invalid" "unusable"
      small_fleet done done_actions 200 old_token gone_petro petro_erased_now.0 refl names_petro
      petro_erased_now.1
