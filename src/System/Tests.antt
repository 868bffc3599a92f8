-- ===== src/System/Tests.antt =====
-- The theorems on the whole service at a few requests on the small fleet.
use fleet_management.Prelude.{ℕ, ◌≡◌, refl, none, some, arith}
use fleet_management.Models.Privacy.{marketing_email, optional_analytics, personalization}
use fleet_management.Session.{Db}
use fleet_management.Samples.{clock, small_fleet, petro}
use fleet_management.Account.Samples.{plain, open_tokens}
use fleet_management.Rental.{start_rental, end_rental, find_vehicle}
use fleet_management.Rental.Consistency.{active_rentals, rented_mark}
use fleet_management.Consent.Evidence.{IsEvidenced}
use fleet_management.PrivacyRoutes.{route, grant_consent, anonymize}
use fleet_management.Models.Account.{User, UserRole}
use fleet_management.Account.{create_user}
use fleet_management.Erasure.{anonymize_user, anonymize_user_row, erase, unique_columns_hold}
use fleet_management.Erasure.Outcome.{find_user}
use fleet_management.Erasure.Samples.{random}
use fleet_management.System.Finality.{Reach-final}
use fleet_management.System.{registers, erases, IsSound, Reach, here, next, starts, ends, grants}
use fleet_management.System.Sound.{Reach-IsSound}
use fleet_management.System.View.{Move, view}
use fleet_management.System.Refines.{Moves, Step-Move, Reach-Moves}

one_rental_each : (k : ℕ) → active_rentals k small_fleet ≡ rented_mark (find_vehicle k small_fleet)
one_rental_each k = ground arith

told : IsEvidenced small_fleet
told k marketing_email = ground arith
told k optional_analytics = ground arith
told k personalization = ground arith

sound : IsSound small_fleet
unfolding fleet_management.Erasure.unique_columns_hold
sound = record {
  consistent = record {
    vehicle_keys = (refl, (refl, tt));
    rental_keys = (refl, tt);
    one_rental = one_rental_each;
  };
  one_per_purpose = (refl, tt);
  evidenced = told;
  message_keys = (refl, (refl, tt));
  unique_columns = refl;
}

abbrev started : Db
started = (start_rental (clock 100) 1 1 small_fleet).1

abbrev ended : Db
ended = (end_rental (clock 200) 100 2 started).1

abbrev granted : Db
granted =
    (route (clock 300) "grant" "c-1" 1 petro
      (grant_consent (λ d. d) (clock 300) optional_analytics "2026-01" "api") ended).1

abbrev a_day : Reach plain open_tokens small_fleet granted
a_day =
    next (next (next here (starts (clock 100) 1 1 refl refl)) (ends (clock 200) 100 2 refl))
      (grants (clock 300) "grant" "c-1" 1 petro optional_analytics "2026-01" "api" refl)

Reach-IsSound_example : IsSound granted
Reach-IsSound_example = Reach-IsSound plain open_tokens small_fleet granted a_day sound

Step-Move_example : Move (view small_fleet) (view started)
Step-Move_example =
    Step-Move plain open_tokens small_fleet started (starts (clock 100) 1 1 refl refl) sound

Reach-Moves_example : Moves (view small_fleet) (view granted)
Reach-Moves_example = Reach-Moves plain open_tokens small_fleet granted a_day sound

-- The first account is anonymized; later somebody else registers, and erasing it is asked for again.
abbrev erased : Db
erased = (anonymize_user (clock 100) random 1 2 "c-1" small_fleet).1

abbrev ghost : User
ghost = anonymize_user_row random 100 petro

ghost_found : find_user 1 erased ≡ some ghost
unfolding anonymize_user unique_columns_hold erase fleet_management.Consent.withdraw_all
ghost_found = refl

abbrev registered : Db
registered =
    (create_user plain (clock 200) 7 "ivan@example.com" "secret77" "Ivan" UserRole.user none
      erased).1

abbrev asked_again : Db
asked_again = (route (clock 300) "erase" "c-2" 1 ghost (anonymize (clock 300) random) registered).1

abbrev later : Reach plain open_tokens erased asked_again
later =
    next
      (next here
        (registers (clock 200) 7 "ivan@example.com" "secret77" "Ivan" UserRole.user none refl))
      (erases (clock 300) random "erase" "c-2" 1 ghost refl)

Reach-final_example : find_user 1 asked_again ≡ some ghost
Reach-final_example =
    Reach-final plain open_tokens erased asked_again 1 100 ghost later ghost_found refl
