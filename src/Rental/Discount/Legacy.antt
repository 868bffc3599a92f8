-- ===== src/Rental/Discount/Legacy.antt =====
-- The discount as one ladder of conditions, the form that it had before the tables and that
-- tests/unit/test_discount_equivalence.py keeps as its reference.
use fleet_management.Prelude.{
  ◌≡◌, refl, ap, String, List, [], ◌∷◌, map, Bool, not, ◌&&◌, ◌||◌, some, ltb, leb, if◌then◌else◌,
  str_eq, arith,
}
use fleet_management.Prelude.Int.{ℤ, pos, negsuc, sum_from, ◌+ℤ◌, int_laws}
use fleet_management.Rental.Discount.{
  DiscountContext, trip_hour, zone_discount, weekend_zone_discount, base_discount, weekend_rule,
  holiday_rule, corporate_rule, night_rule, birthday_rule, charged_rule, surcharge,
  calculate_discount,
}

pub legacy_base : DiscountContext → ℤ
legacy_base c =
    if c.is_vip
    then if ltb 10 c.rental_count
      then if str_eq c.vehicle_type "premium" then pos 5 else pos 10
      else if str_eq c.vehicle_type "premium"
      then pos 2
      else pos 5
    else if ltb 20 c.rental_count
    then pos 3
    else if leb c.rental_count 5
    then pos 0
    else if c.has_coupon
    then pos 4
    else pos 1

-- `ZONE_DISCOUNTS.get(zone, 0)`, with the table of the test
abbrev pub legacy_zone_discount : String → ℤ
legacy_zone_discount zone =
    if str_eq zone "center" then pos 1 else if str_eq zone "suburb" then negsuc 0 else pos 0

abbrev pub legacy_zones_total : ℤ → List String → ℤ
legacy_zones_total total [] = total
legacy_zones_total total (zone ∷ zones) =
    legacy_zones_total (total +ℤ legacy_zone_discount zone) zones

-- `if test: discount += amount`
abbrev add_if : Bool → ℤ → ℤ → ℤ
add_if test amount discount = discount +ℤ (if test then amount else pos 0)

pub legacy_discount : DiscountContext → ℤ
unfolding legacy_base
legacy_discount c =
    add_if (c.returned_charged && str_eq c.vehicle_type "electric" && ltb trip_hour c.trip_hours)
      (pos 2)
      (add_if (c.is_birthday && (c.is_vip || ltb 3 c.rental_count)) (pos 6) (
        add_if (c.is_night && leb 3_000_000 c.trip_hours && not c.has_coupon) (pos 4) (
          add_if (c.is_corporate && ltb 5 c.rental_count && not (str_eq c.vehicle_type "premium"))
            (pos 3)
            (add_if c.is_holiday (if c.has_coupon then pos 2 else pos 1)
              (add_if c.is_weekend (legacy_zones_total (pos 0) c.station_zones) (legacy_base c))))))

zones-legacy :
    (zones : List String) (total : ℤ)
    → sum_from total (map zone_discount zones) ≡ legacy_zones_total total zones
zones-legacy [] total = refl
zones-legacy (zone ∷ zones) total = zones-legacy zones (total +ℤ legacy_zone_discount zone)

base-legacy : (c : DiscountContext) → base_discount c ≡ some (legacy_base c)
unfolding base_discount legacy_base
base-legacy c = ground arith

weekend-legacy :
    (c : DiscountContext)
    → surcharge c weekend_rule
      ≡ (if c.is_weekend then legacy_zones_total (pos 0) c.station_zones else pos 0)
unfolding surcharge weekend_zone_discount
weekend-legacy c = ground (arith, zones-legacy c.station_zones (pos 0))

holiday-legacy :
    (c : DiscountContext)
    → surcharge c holiday_rule
      ≡ (if c.is_holiday then (if c.has_coupon then pos 2 else pos 1) else pos 0)
unfolding surcharge
holiday-legacy c = ground arith

corporate-legacy :
    (c : DiscountContext)
    → surcharge c corporate_rule ≡ (
        if c.is_corporate && ltb 5 c.rental_count && not (str_eq c.vehicle_type "premium")
        then pos 3
        else pos 0)
unfolding surcharge
corporate-legacy c = ground arith

night-legacy :
    (c : DiscountContext)
    → surcharge c night_rule
      ≡ (if c.is_night && leb 3_000_000 c.trip_hours && not c.has_coupon then pos 4 else pos 0)
unfolding surcharge
night-legacy c = ground arith

birthday-legacy :
    (c : DiscountContext)
    → surcharge c birthday_rule
      ≡ (if c.is_birthday && (c.is_vip || ltb 3 c.rental_count) then pos 6 else pos 0)
unfolding surcharge
birthday-legacy c = ground arith

charged-legacy :
    (c : DiscountContext)
    → surcharge c charged_rule ≡ (
        if c.returned_charged && str_eq c.vehicle_type "electric" && ltb trip_hour c.trip_hours
        then pos 2
        else pos 0)
unfolding surcharge
charged-legacy c = ground arith

regroup :
    (b x1 x2 x3 x4 x5 x6 : ℤ)
    → b +ℤ ((((((pos 0 +ℤ x1) +ℤ x2) +ℤ x3) +ℤ x4) +ℤ x5) +ℤ x6)
      ≡ (((((b +ℤ x1) +ℤ x2) +ℤ x3) +ℤ x4) +ℤ x5) +ℤ x6
regroup b x1 x2 x3 x4 x5 x6 = omega int_laws

-- On every input the tables give the discount of the ladder, and no lookup of a key fails.
pub calculate_discount-legacy :
    (c : DiscountContext) → calculate_discount c ≡ some (legacy_discount c)
unfolding calculate_discount legacy_discount
calculate_discount-legacy c =
    rw (base-legacy c, calculate_discount)
      (rw
        (
          ← weekend-legacy c,
          ← holiday-legacy c,
          ← corporate-legacy c,
          ← night-legacy c,
          ← birthday-legacy c,
          ← charged-legacy c,
        )
        (ap some (
          regroup (legacy_base c) (surcharge c weekend_rule) (surcharge c holiday_rule)
            (surcharge c corporate_rule) (surcharge c night_rule) (surcharge c birthday_rule)
            (surcharge c charged_rule))))
