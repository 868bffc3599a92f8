-- ===== src/PrivacyRoutes/Tests.antt =====
-- The theorem on access at two accounts.
use fleet_management.Prelude.{◌≡◌, refl, none, arith}
use fleet_management.Models.Privacy.{marketing_email}
use fleet_management.Samples.{clock, small_fleet, olha}
use fleet_management.PrivacyRoutes.{ConsentState, route, revoke_consent}
use fleet_management.PrivacyRoutes.Access.{refused_access, stranger_refused}

stranger_refused_example :
    route
      (clock 100)
      "consent_revoke"
      "c-1"
      1
      olha
      (revoke_consent (clock 100) marketing_email none)
      small_fleet
    ≡ refused_access ConsentState (clock 100) "consent_revoke" "c-1" 1 olha "denied" small_fleet
stranger_refused_example =
    stranger_refused (revoke_consent (clock 100) marketing_email none) (clock 100) "consent_revoke"
      "c-1" 1 olha small_fleet (λ e. omega (arith, e)) refl
