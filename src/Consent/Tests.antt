-- ===== src/Consent/Tests.antt =====
-- The theorems on consents at a small fleet.
use fleet_management.Prelude.{◌≡◌, refl, some, true, false, arith}
use fleet_management.Models.Privacy.{marketing_email, optional_analytics, personalization}
use fleet_management.Session.{Db, ok}
use fleet_management.Samples.{clock, small_fleet}
use fleet_management.Consent.{
  second_try, grant, revoke, check, new_consent, stage_new, ConsentChange,
}
use fleet_management.Consent.Effects.{check-revoke}
use fleet_management.Consent.Evidence.{IsEvidenced}
use fleet_management.Consent.Keys.{grant_race}

told : IsEvidenced small_fleet
told k marketing_email = ground arith
told k optional_analytics = ground arith
told k personalization = ground arith

-- The change that the grant of a further purpose reports.
abbrev further : ConsentChange
further = record {
  consent = some (new_consent (clock 100) 1 personalization "2026-01" "api");
  changed = true;
}

further_granted :
    (grant (λ d. d) (clock 100) 1 personalization "2026-01" "api" small_fleet).0 ≡ ok further
unfolding grant
further_granted = refl

check-revoke_example :
    (check
      (revoke (clock 100) 1 marketing_email "api" small_fleet).1
      1
      marketing_email
      "2026-01").allowed
    ≡ false
check-revoke_example = check-revoke (clock 100) 1 marketing_email "api" "2026-01" small_fleet

-- What another session commits first.
abbrev first_grant : Db → Db
first_grant db = stage_new (clock 90) 2 marketing_email "2026-01" "web" db

grant_race_example :
    grant first_grant (clock 100) 2 marketing_email "2026-01" "api" small_fleet
    ≡ grant
        (λ d. d)
        (second_try (clock 100))
        2
        marketing_email
        "2026-01"
        "api"
        (first_grant small_fleet)
grant_race_example =
    grant_race first_grant (clock 100) 2 marketing_email "2026-01" "api" small_fleet
      (new_consent (clock 90) 2 marketing_email "2026-01" "web") refl refl
