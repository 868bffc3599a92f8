-- ===== src/Rental/Answers.antt =====
-- Which errors `end_rental` of services/rental_service.py can raise.
use fleet_management.Prelude.{
  ℕ, ◌≡◌, ◌≢◌, true, none, some, counted, Option-cases, Bool-cases, inl, inr, arith,
}
use fleet_management.Models.Fleet.{Rental, is_active}
use fleet_management.Session.{Db, Ambient, err, attribute_error}
use fleet_management.Rental.{find_vehicle, find_rental, end_rental}
use fleet_management.Rental.Consistency.{IsConsistent, is_active_of, active_rentals, rented_mark}

-- The vehicle of an active rental stands in the table.
pub active_has_vehicle :
    (rental_id : ℕ) (db : Db) (r : Rental)
    → find_rental rental_id db ≡ some r
    → is_active r.status ≡ true
    → active_rentals r.vehicle_id db ≡ rented_mark (find_vehicle r.vehicle_id db)
    → find_vehicle r.vehicle_id db ≢ none
active_has_vehicle rental_id db r found open_rental one gone =
    ground (
      arith,
      counted (λ (x : Rental). x.id) (is_active_of r.vehicle_id) rental_id db.rentals r found,
    )

-- The vehicle is read without a test for `None`, and still no call fails on a missing one when the
-- fleet is consistent (unique ids, and each vehicle rented exactly while one rental of it is
-- active): `end_rental` raises no `AttributeError`.
pub end_rental_finds_vehicle :
    (env : Ambient) (rental_id station_id : ℕ) (db : Db)
    → IsConsistent db
    → (end_rental env rental_id station_id db).0 ≢ err attribute_error
unfolding end_rental
end_rental_finds_vehicle env rental_id station_id db c raised =
    elim (Option-cases (find_rental rental_id db)) [
      | inl missing ↦ ground arith
      | inr (r, found) ↦ elim (Bool-cases (is_active r.status)) [
        | inr closed ↦ ground arith
        | inl open_rental ↦ elim (Option-cases (find_vehicle r.vehicle_id db)) [
          | inl gone ↦
              absurd (
                active_has_vehicle rental_id db r found open_rental (c.one_rental r.vehicle_id)
                  gone)
          | inr (v, of_vehicle) ↦ ground arith
        ]
      ]
    ]
