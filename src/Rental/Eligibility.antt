-- ===== src/Rental/Eligibility.antt =====
-- `validate_rental_eligibility` of src/fleet_management/services/rental_service.py: a table of
-- rules in the order of their priority.
use fleet_management.Prelude.{
  ℕ, String, ◌≡◌, Bool, true, false, not, ◌&&◌, List, [], ◌∷◌, ltb, All, ◌++◌, if◌then◌else◌, ◌↔◌,
  arith,
}
use fleet_management.Models.Fleet.{VehicleStatus, is_available}

pub record RentalEligibilityContext : Type 0 where
  pub renter_is_blacklisted : Bool
  pub license_expired : Bool
  pub has_unpaid_fees : Bool
  pub active_rental_count : ℕ
  pub vehicle_status : VehicleStatus
  pub station_is_open : Bool
  pub is_weekend : Bool
  pub weekend_requires_deposit : Bool
  pub has_deposit_on_file : Bool

abbrev pub deposit_missing : RentalEligibilityContext → Bool
deposit_missing c = c.is_weekend && c.weekend_requires_deposit && not c.has_deposit_on_file

abbrev pub unpaid_fees_with_active_rental : RentalEligibilityContext → Bool
unpaid_fees_with_active_rental c = c.has_unpaid_fees && ltb 0 c.active_rental_count

abbrev pub unpaid_fees_without_deposit : RentalEligibilityContext → Bool
unpaid_fees_without_deposit c = c.has_unpaid_fees && deposit_missing c

abbrev pub vehicle_unavailable : RentalEligibilityContext → Bool
vehicle_unavailable c = not (is_available c.vehicle_status)

abbrev pub station_closed : RentalEligibilityContext → Bool
station_closed c = not c.station_is_open

-- what every rule reads of the context, and the reason that it gives
abbrev pub EligibilityRule : Type 0
EligibilityRule = (RentalEligibilityContext → Bool) × String

unfoldable pub eligibility_rules : List EligibilityRule
eligibility_rules =
    ((λ c. c.renter_is_blacklisted), "Renter is blacklisted")
    ∷ ((λ c. c.license_expired), "License expired")
    ∷ (unpaid_fees_with_active_rental, "Unpaid fees with an active rental")
    ∷ (unpaid_fees_without_deposit, "Deposit required for unpaid fees on weekend")
    ∷ (vehicle_unavailable, "Vehicle not available")
    ∷ (station_closed, "Station is closed")
    ∷ (deposit_missing, "Deposit required on weekend")
    ∷ []

-- the `for` loop, which returns at the first rule that is violated
unfoldable pub first_violation : List EligibilityRule → RentalEligibilityContext → Bool × String
first_violation [] c = (true, "OK")
first_violation ((is_violated, reason) ∷ rules) c =
    let rest = first_violation rules c in if is_violated c then (false, reason) else rest

unfoldable pub validate_rental_eligibility : RentalEligibilityContext → Bool × String
unfolding first_violation eligibility_rules
validate_rental_eligibility c = first_violation eligibility_rules c

-- A rental is allowed exactly when the renter is not blacklisted, the licence is valid, the vehicle
-- is available, the station is open, no required weekend deposit is missing, and there are no
-- unpaid fees beside an active rental.
pub validate_rental_eligibility_iff :
    (c : RentalEligibilityContext)
    → ((validate_rental_eligibility c).0 ≡ true) ↔ (
        (c.renter_is_blacklisted ≡ false)
        × (c.license_expired ≡ false)
        × (is_available c.vehicle_status ≡ true)
        × (c.station_is_open ≡ true)
        × (deposit_missing c ≡ false)
        × (unpaid_fees_with_active_rental c ≡ false))
unfolding validate_rental_eligibility
validate_rental_eligibility_iff c = ground arith

-- The reason is that of the first rule that is violated, whatever rules stand behind it.
pub first_violation_lem :
    (before after : List EligibilityRule) (is_violated : RentalEligibilityContext → Bool)
    (reason : String) (c : RentalEligibilityContext)
    → All (λ (rule : EligibilityRule). rule.0 c ≡ false) before
    → is_violated c ≡ true
    → first_violation (before ++ (is_violated, reason) ∷ after) c ≡ (false, reason)
unfolding first_violation
first_violation_lem [] after is_violated reason c clear hit = ground arith
first_violation_lem (rule ∷ before) after is_violated reason c clear hit =
    ground (arith, first_violation_lem before after is_violated reason c clear.1 hit)
