-- ===== src/Privacy/Tests.antt =====
-- The theorems on log privacy with an engine that knows one key and leaves texts alone.
use fleet_management.Prelude.{◌≡◌, refl, ◌||◌, [], ◌∷◌, true, false, none, some, str_eq}
use fleet_management.Privacy.Correlation.{is_valid_id, accept_or_generate}
use fleet_management.Privacy.Correlation.Reuse.{Answered, accept_or_generate_lem}
use fleet_management.Privacy.Sanitizer.{
  Texts, Value, plain_text, dict, other, end, entry, sanitize_value,
}
use fleet_management.Privacy.Sanitizer.Hides.{
  Similar, in_dict, secret_entry, name_entry, plain_entry, same_other, no_entries,
  sanitize_value-hides,
}
use fleet_management.Privacy.Records.{
  LogRecord, no_args, sanitize_record, sanitize_record-sanitize_record,
}
use fleet_management.Privacy.Handlers.{
  Logging, standard, other_filter, is_sanitized, is_listed, configure_logging,
}
use fleet_management.Privacy.Handlers.Configured.{
  configure_logging-sanitized, configure_logging-configure_logging,
}

-- the newline that `$` lets through
newline_accepted : (is_valid_id "req-1\n" ≡ true) × (is_valid_id "a b" ≡ false)
unfolding is_valid_id
newline_accepted = (refl, refl)

accept_or_generate_lem_example :
    Answered "f00" (some "req-1\n") (accept_or_generate "f00" (some "req-1\n"))
accept_or_generate_lem_example = accept_or_generate_lem "f00" (some "req-1\n")

abbrev plain : Texts
plain = record {
  sub = λ pattern replace s. s;
  fullmatch = λ pattern s. str_eq s "password";
  match_start = λ pattern s. false;
  lower = λ s. s;
}

abbrev first_login : Value
first_login = dict (
    entry "password" (plain_text "hunter2")
      (entry "full_name" (plain_text "Petro") (entry "tries" (other 1) end)))

abbrev second_login : Value
second_login = dict (
    entry "password" (other 7)
      (entry "full_name" (plain_text "Pavlo") (entry "tries" (other 1) end)))

abbrev alike : Similar plain first_login second_login
alike = in_dict _ _ (
    secret_entry "password" (plain_text "hunter2") (other 7) _ _ refl (
      name_entry "full_name" "Petro" "Pavlo" _ _ refl refl
        (plain_entry "tries" (other 1) (other 1) end end (same_other 1) no_entries)))

sanitize_value-hides_example : sanitize_value plain first_login ≡ sanitize_value plain second_login
sanitize_value-hides_example = sanitize_value-hides plain first_login second_login alike

abbrev line : LogRecord
line = record {
  msg = "login";
  args = no_args;
  exc_info = none;
  exc_text = none;
  stack_info = none;
  correlation_id = none;
  pii_sanitized = false;
  extras = entry "password" (plain_text "hunter2") end;
}

sanitize_record-sanitize_record_example :
    sanitize_record plain
      (λ msg args. msg)
      none
      (sanitize_record plain (λ msg args. msg) (some "req-1") line)
    ≡ sanitize_record plain (λ msg args. msg) (some "req-1") line
sanitize_record-sanitize_record_example =
    sanitize_record-sanitize_record plain (λ msg args. msg) (some "req-1") none line

-- A handler of the root logger that also serves uvicorn, and one with a filter of its own.
abbrev logging : Logging
logging = record {
  handlers = λ k. record { filters = other_filter k ∷ []; formatter = standard };
  level = 30;
  root = 1 ∷ [];
  uvicorn = 1 ∷ 2 ∷ [];
  uvicorn_error = [];
  access_disabled = false;
}

two_listed :
    let after = configure_logging (λ s. s) (some "json") 20 7 logging in
    is_listed 2 after.root || is_listed 2 after.uvicorn || is_listed 2 after.uvicorn_error ≡ true
unfolding configure_logging
two_listed = refl

configure_logging-sanitized_example :
    is_sanitized ((configure_logging (λ s. s) (some "json") 20 7 logging).handlers 2).filters ≡ true
configure_logging-sanitized_example =
    configure_logging-sanitized (λ s. s) (some "json") 20 7 logging 2 two_listed

configure_logging-configure_logging_example :
    let once = configure_logging (λ s. s) (some "json") 20 7 logging in
    ((configure_logging (λ s. s) none 10 8 once).handlers 1).formatter ≡ (once.handlers 1).formatter
configure_logging-configure_logging_example =
    configure_logging-configure_logging (λ s. s) (some "json") none 20 10 7 8 logging 1
