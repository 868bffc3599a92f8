-- ===== src/Erasure/Samples.antt =====
-- An erasure of the first account of the small fleet, for tests.
use fleet_management.Prelude.{◌≡◌, refl, some}
use fleet_management.Session.{ok}
use fleet_management.Samples.{clock, small_fleet}
use fleet_management.Erasure.{
  Randomness, Actions, AnonymizeOutcome, anonymize_user, erase, unique_columns_hold,
}

abbrev pub random : Randomness
random = record { email_token = "e1"; license_token = λ _. "l1"; password_hash = "unusable" }

abbrev pub done_actions : Actions
done_actions = record {
  renters_anonymized = 1;
  activity_deleted = 1;
  marketing_messages_deleted = 1;
  analytics_events_deleted = 1;
  consents_withdrawn = 1;
}

abbrev pub done : AnonymizeOutcome
done = record { subject_id = 1; status = "anonymized"; actions = some done_actions }

pub petro_erased : (anonymize_user (clock 100) random 1 2 "c-1" small_fleet).0 ≡ ok done
unfolding anonymize_user unique_columns_hold erase fleet_management.Consent.withdraw_all
petro_erased = refl
