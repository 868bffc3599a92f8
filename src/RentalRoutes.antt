-- ===== src/RentalRoutes.antt =====
-- The rentals that the API shows: src/fleet_management/api/rentals.py, with `my_rentals` and
-- `my_renter_profile` of src/fleet_management/api/me.py. Amounts are whole cents.
pub mod Revenue
mod Tests
use fleet_management.Prelude.{
  ℕ, ◌+◌, Bool, true, false, not, Option, none, some, List, [], ◌∷◌, map, find?, select,
  count_where, order_by, leb, ◌==◌, if◌then◌else◌,
}
use fleet_management.Models.Fleet.{
  Renter, Rental, RentalStatus, active, completed, cancelled, is_active, is_completed, is_cancelled,
}
use fleet_management.Models.Account.{User}
use fleet_management.Session.{
  Db, Ambient, Entity, not_found, http_exception, Action, Result, ok, err, gets, or_raise, pure,
  ◌>>=◌, ◌>>◌,
}
use fleet_management.Rental.{calculate_cost, rate_per_hour, find_rental, start_rental, end_rental}
use fleet_management.Erasure.{belongs_to}

pub record RentalRead : Type 0 where
  pub rental : Rental
  pub cost : Option ℕ

abbrev pub ended_or : Option ℕ → ℕ → ℕ
ended_or none now = now
ended_or (some ended_at) now = ended_at

-- The cost so far of an active rental, the final cost of a completed one, none of a cancelled one.
unfoldable pub rental_with_cost : ℕ → Rental → RentalRead
rental_with_cost now rental = record {
  rental = rental;
  cost =
      if is_cancelled rental.status
      then none
      else some (calculate_cost rental.started_at (ended_or rental.ended_at now) rate_per_hour);
}

-- `order_by(Rental.started_at.desc())`
abbrev pub insert_newest : Rental → List Rental → List Rental
insert_newest x [] = x ∷ []
insert_newest x (y ∷ ys) =
    if leb y.started_at x.started_at then x ∷ y ∷ ys else y ∷ insert_newest x ys

abbrev pub newest_first : List Rental → List Rental
newest_first [] = []
newest_first (x ∷ xs) = insert_newest x (newest_first xs)

unfoldable pub list_rentals : ℕ → Db → List RentalRead
list_rentals now db = map (rental_with_cost now) (newest_first db.rentals)

unfoldable pub get_rental : ℕ → Action Rental
get_rental rental_id = do
  rental ← gets (find_rental rental_id)
  or_raise rental (http_exception 404)

abbrev pub renter_of : ℕ → Db → Option Renter
renter_of user_id db = find? (belongs_to user_id) db.renters

unfoldable pub my_renter_profile : User → Action Renter
my_renter_profile user = do
  renter ← gets (renter_of user.id)
  or_raise renter (not_found Entity.renter_profile user.id)

abbrev pub rentals_of : ℕ → Option Renter → Db → List RentalRead
rentals_of now none db = []
rentals_of now (some renter) db =
    map (rental_with_cost now) (newest_first (select (λ r. r.renter_id == renter.id) db.rentals))

unfoldable pub my_rentals : ℕ → User → Db → List RentalRead
my_rentals now user db = rentals_of now (renter_of user.id db) db

-- The revenue of a rental that `ended_at` gives an end.
abbrev pub revenue_until : ℕ → Option ℕ → ℕ
revenue_until started_at none = 0
revenue_until started_at (some ended_at) = calculate_cost started_at ended_at rate_per_hour

unfoldable pub completed_rental_revenue : Rental → ℕ
completed_rental_revenue rental = revenue_until rental.started_at rental.ended_at

abbrev pub total_revenue : List Rental → ℕ
total_revenue [] = 0
total_revenue (r ∷ rs) =
    (if is_completed r.status then completed_rental_revenue r else 0) + total_revenue rs

pub record RentalsSummary : Type 0 where
  pub active_count : ℕ
  pub completed_count : ℕ
  pub cancelled_count : ℕ
  pub revenue : ℕ

unfoldable pub rentals_summary : Db → RentalsSummary
rentals_summary db = record {
  active_count = count_where (λ r. is_active r.status) db.rentals;
  completed_count = count_where (λ r. is_completed r.status) db.rentals;
  cancelled_count = count_where (λ r. is_cancelled r.status) db.rentals;
  revenue = total_revenue db.rentals;
}

-- The route's answer to a rental that the service ended.
abbrev pub ended_read : Result Rental × Db → Result RentalRead × Db
ended_read (err e, db) = (err e, db)
ended_read (ok rental, db) = (
  ok (record { rental = rental; cost = some (revenue_until rental.started_at rental.ended_at) }),
  db,
)

-- The invalidation of the cached list of vehicles has no part in the answer.
unfoldable pub end_rental_route : Ambient → ℕ → ℕ → Action RentalRead
end_rental_route env rental_id end_station_id db =
    ended_read (end_rental env rental_id end_station_id db)

unfoldable pub start_rental_route : Ambient → ℕ → ℕ → Action RentalRead
start_rental_route env renter_id vehicle_id = do
  rental ← start_rental env renter_id vehicle_id
  pure (record { rental = rental; cost = none })
