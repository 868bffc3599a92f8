-- ===== src/Rental/Discount.antt =====
-- `calculate_discount` of src/fleet_management/services/rental_service.py: a base discount and a
-- table of rules, each with a key that it evaluates and a dictionary from keys to amounts. Every
-- amount of the tables is a whole number. A missing key of a plain index is `none` (`KeyError`).
pub mod Legacy
use Prim.Native.Nat.{ℕ, suc}
use fleet_management.Prelude.{
  String, Bool, true, false, not, ◌&&◌, Option, none, some, List, [], ◌∷◌, map, ltb, leb, ◌==◌,
  if◌then◌else◌, str_eq,
}
use fleet_management.Prelude.Int.{ℤ, pos, negsuc, ◌+ℤ◌, sum_from}

-- `trip_hours` is in millionths of an hour.
pub record DiscountContext : Type 0 where
  pub rental_count : ℕ
  pub is_vip : Bool
  pub vehicle_type : String
  pub station_zones : List String
  pub has_coupon : Bool
  pub is_weekend : Bool
  pub is_holiday : Bool
  pub is_corporate : Bool
  pub is_night : Bool
  pub trip_hours : ℕ
  pub is_birthday : Bool
  pub returned_charged : Bool

abbrev pub trip_hour : ℕ
trip_hour = 1_000_000

-- Keys are tuples of conditions.
abbrev pub key_eq : List Bool → List Bool → Bool
key_eq [] [] = true
key_eq (true ∷ xs) (true ∷ ys) = key_eq xs ys
key_eq (false ∷ xs) (false ∷ ys) = key_eq xs ys
key_eq _ _ = false

-- `table.get(key)` over a dictionary with such keys
abbrev pub lookup : {V : Type 0} → List Bool → List (List Bool × V) → Option V
lookup k [] = none
lookup k ((j, v) ∷ table) = if key_eq k j then some v else lookup k table

-- `ZONE_DISCOUNTS.get(zone, 0)`
abbrev pub zone_discount : String → ℤ
zone_discount zone =
    if str_eq zone "center" then pos 1 else if str_eq zone "suburb" then negsuc 0 else pos 0

abbrev pub vip_table : List (List Bool × ℤ)
vip_table =
    (true ∷ true ∷ [], pos 5)
    ∷ (true ∷ false ∷ [], pos 10)
    ∷ (false ∷ true ∷ [], pos 2)
    ∷ (false ∷ false ∷ [], pos 5)
    ∷ []

abbrev pub regular_tier_bounds : List ℕ
regular_tier_bounds = 5 ∷ 20 ∷ []

-- `bisect_left` on an ascending list: how many of its values are below `x`
abbrev pub bisect_left : List ℕ → ℕ → ℕ
bisect_left [] x = 0
bisect_left (b ∷ bounds) x = if ltb b x then suc (bisect_left bounds x) else 0

-- `REGULAR_DISCOUNT`, keyed by a tier and a coupon
abbrev pub regular_table : List (ℕ × Bool × ℤ)
regular_table =
    (0, false, pos 0)
    ∷ (0, true, pos 0)
    ∷ (1, false, pos 1)
    ∷ (1, true, pos 4)
    ∷ (2, false, pos 3)
    ∷ (2, true, pos 3)
    ∷ []

abbrev pub lookup_tier : ℕ → Bool → List (ℕ × Bool × ℤ) → Option ℤ
lookup_tier tier coupon [] = none
lookup_tier tier coupon ((t, c, v) ∷ table) =
    if tier == t && key_eq (coupon ∷ []) (c ∷ []) then some v else lookup_tier tier coupon table

unfoldable pub vip_discount : ℕ → String → Option ℤ
vip_discount rental_count vehicle_type =
    lookup (ltb 10 rental_count ∷ str_eq vehicle_type "premium" ∷ []) vip_table

unfoldable pub regular_discount : ℕ → Bool → Option ℤ
regular_discount rental_count has_coupon =
    lookup_tier (bisect_left regular_tier_bounds rental_count) has_coupon regular_table

unfoldable pub weekend_zone_discount : List String → ℤ
weekend_zone_discount zones = sum_from (pos 0) (map zone_discount zones)

abbrev pub holiday_discount : Bool → ℤ
holiday_discount true = pos 2
holiday_discount false = pos 1

abbrev pub Amount : Type 0
Amount = DiscountContext → ℤ

abbrev pub flat : ℤ → Amount
flat amount c = amount

-- `BASE_DISCOUNT[is_vip]`
unfoldable pub base_discount : DiscountContext → Option ℤ
unfolding vip_discount regular_discount
base_discount c =
    if c.is_vip
    then vip_discount c.rental_count c.vehicle_type
    else regular_discount c.rental_count c.has_coupon

pub record SurchargeRule : Type 0 where
  pub key : DiscountContext → List Bool
  pub table : List (List Bool × Amount)

abbrev pub weekend_rule : SurchargeRule
weekend_rule = record {
  key = λ c. c.is_weekend ∷ [];
  table = (true ∷ [], λ c. weekend_zone_discount c.station_zones) ∷ [];
}

abbrev pub holiday_rule : SurchargeRule
holiday_rule = record {
  key = λ c. c.is_holiday ∷ [];
  table = (true ∷ [], λ c. holiday_discount c.has_coupon) ∷ [];
}

abbrev pub corporate_rule : SurchargeRule
corporate_rule = record {
  key = λ c. c.is_corporate ∷ ltb 5 c.rental_count ∷ not (str_eq c.vehicle_type "premium") ∷ [];
  table = (true ∷ true ∷ true ∷ [], flat (pos 3)) ∷ [];
}

abbrev pub night_rule : SurchargeRule
night_rule = record {
  key = λ c. c.is_night ∷ leb (3_000_000) c.trip_hours ∷ c.has_coupon ∷ [];
  table = (true ∷ true ∷ false ∷ [], flat (pos 4)) ∷ [];
}

abbrev pub birthday_rule : SurchargeRule
birthday_rule = record {
  key = λ c. c.is_birthday ∷ c.is_vip ∷ ltb 3 c.rental_count ∷ [];
  table =
      (true ∷ true ∷ true ∷ [], flat (pos 6))
      ∷ (true ∷ true ∷ false ∷ [], flat (pos 6))
      ∷ (true ∷ false ∷ true ∷ [], flat (pos 6))
      ∷ [];
}

abbrev pub charged_rule : SurchargeRule
charged_rule = record {
  key =
      λ c. c.returned_charged ∷ str_eq c.vehicle_type "electric" ∷ ltb trip_hour c.trip_hours ∷ [];
  table = (true ∷ true ∷ true ∷ [], flat (pos 2)) ∷ [];
}

unfoldable pub surcharge_rules : List SurchargeRule
surcharge_rules =
    weekend_rule ∷ holiday_rule ∷ corporate_rule ∷ night_rule ∷ birthday_rule ∷ charged_rule ∷ []

-- `table.get(key(ctx), _NO_DISCOUNT)(ctx)`
unfoldable pub surcharge : DiscountContext → SurchargeRule → ℤ
surcharge c rule = elim (lookup (rule.key c) rule.table) [ some amount ↦ amount c | none ↦ pos 0 ]

unfoldable pub calculate_discount : DiscountContext → Option ℤ
unfolding surcharge_rules
calculate_discount c = elim (base_discount c) [
  | none ↦ none
  | some base ↦ some (base +ℤ sum_from (pos 0) (map (surcharge c) surcharge_rules))
]
