-- ===== src/RentalRoutes/Tests.antt =====
-- The theorem on the summary of rentals at a small fleet.
use fleet_management.Prelude.{ℕ, ◌≡◌, refl, some}
use fleet_management.Session.{ok}
use fleet_management.Samples.{clock, small_fleet, trip}
use fleet_management.Rental.{complete_rental}
use fleet_management.RentalRoutes.{RentalRead, rentals_summary, end_rental_route}
use fleet_management.RentalRoutes.Revenue.{Completed, rentals_summary-end_rental}

abbrev trip_read : RentalRead
trip_read = record { rental = complete_rental 100 2 trip; cost = some 500 }

trip_ended : (end_rental_route (clock 100) 1 2 small_fleet).0 ≡ ok trip_read
unfolding end_rental_route fleet_management.Rental.end_rental fleet_management.Rental.calculate_cost
    fleet_management.Rental.billable_hours
trip_ended = refl

rentals_summary-end_rental_example :
    (cost : ℕ) × (some 500 ≡ some cost)
    × Completed cost
        (rentals_summary small_fleet)
        (rentals_summary (end_rental_route (clock 100) 1 2 small_fleet).1)
rentals_summary-end_rental_example =
    rentals_summary-end_rental (clock 100) 1 2 small_fleet trip_read (refl, tt) trip_ended
