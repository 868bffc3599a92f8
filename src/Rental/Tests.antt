-- ===== src/Rental/Tests.antt =====
-- The theorems on rentals at a small fleet.
use fleet_management.Prelude.{
  ℕ, ◌≡◌, ◌≢◌, ◌+◌, refl, some, true, false, [], ◌∷◌, arith, HasUniqueKeys,
}
use fleet_management.Models.Fleet.{Vehicle, available}
use fleet_management.Session.{ok, err, attribute_error}
use fleet_management.Samples.{clock, small_fleet, free_car, station_a}
use fleet_management.Rental.{start_rental, end_rental, find_vehicle, find_rental, new_rental}
use fleet_management.Rental.Consistency.{IsConsistent, active_rentals, rented_mark}
use fleet_management.Rental.Capacity.{
  FitsStations, closed_rental, end_rental-FitsStations, end_rental-start_rental,
}
use fleet_management.Rental.Answers.{end_rental_finds_vehicle}
use fleet_management.Rental.Race.{check_start, commit_start, double_booking}
use fleet_management.Rental.Eligibility.{RentalEligibilityContext}
use fleet_management.Rental.Discount.{DiscountContext, calculate_discount}
use fleet_management.Rental.Discount.Legacy.{legacy_discount, calculate_discount-legacy}

one_rental_each : (k : ℕ) → active_rentals k small_fleet ≡ rented_mark (find_vehicle k small_fleet)
one_rental_each k = ground arith

unique_cars : HasUniqueKeys (λ (v : Vehicle). v.id) small_fleet.vehicles
unique_cars = (refl, (refl, tt))

fleet_ok : IsConsistent small_fleet
fleet_ok = record {
  vehicle_keys = unique_cars;
  rental_keys = (refl, tt);
  one_rental = one_rental_each;
}

fitting_fleet : FitsStations small_fleet
fitting_fleet k s e = ground arith

end_rental-FitsStations_example : FitsStations (end_rental (clock 100) 1 2 small_fleet).1
end_rental-FitsStations_example =
    end_rental-FitsStations (clock 100) 1 2 small_fleet unique_cars fitting_fleet

end_rental-start_rental_example :
    let started = (start_rental (clock 100) 1 1 small_fleet).1 in
    let ended = end_rental (clock 200) 100 1 started in
    (ended.0 ≡ ok (closed_rental (clock 100) (clock 200) 1 1 1))
    × (find_vehicle 1 ended.1 ≡ some free_car)
    × (find_rental 100 ended.1 ≡ some (closed_rental (clock 100) (clock 200) 1 1 1))
end_rental-start_rental_example =
    end_rental-start_rental (clock 100) (clock 200) 1 1 small_fleet free_car station_a unique_cars
      refl refl refl refl refl (omega arith)

both_read : check_start 1 small_fleet ≡ (ok free_car, small_fleet)
unfolding check_start
both_read = refl

double_booking_example :
    let (first, mid) = commit_start (clock 100) 1 1 free_car small_fleet in
    let (second, after) = commit_start (clock 200) 1 1 free_car mid in
    (first ≡ ok (new_rental (clock 100) 1 1 free_car))
    × (second ≡ ok (new_rental (clock 200) 1 1 free_car))
    × (active_rentals 1 after ≡ active_rentals 1 small_fleet + 2)
double_booking_example =
    double_booking (clock 100) (clock 200) 1 1 1 free_car small_fleet both_read refl refl

abbrev in_debt : RentalEligibilityContext
in_debt = record {
  renter_is_blacklisted = false;
  license_expired = false;
  has_unpaid_fees = true;
  active_rental_count = 1;
  vehicle_status = available;
  station_is_open = true;
  is_weekend = false;
  weekend_requires_deposit = false;
  has_deposit_on_file = false;
}

abbrev night_trip : DiscountContext
night_trip = record {
  rental_count = 12;
  is_vip = true;
  vehicle_type = "electric";
  station_zones = "center" ∷ "suburb" ∷ "center" ∷ [];
  has_coupon = false;
  is_weekend = true;
  is_holiday = false;
  is_corporate = false;
  is_night = true;
  trip_hours = 3_500_000;
  is_birthday = false;
  returned_charged = true;
}

calculate_discount-legacy_example :
    calculate_discount night_trip ≡ some (legacy_discount night_trip)
calculate_discount-legacy_example = calculate_discount-legacy night_trip

end_rental_finds_vehicle_example : (end_rental (clock 100) 1 2 small_fleet).0 ≢ err attribute_error
end_rental_finds_vehicle_example = end_rental_finds_vehicle (clock 100) 1 2 small_fleet fleet_ok
