-- ===== src/App/Answers.antt =====
-- The status codes with which src/fleet_management/main.py answers the rental routes of
-- api/rentals.py.
use fleet_management.Prelude.{
  ℕ, String, ◌≡◌, ◌⊎◌, inl, inr, true, false, some, find?, count_where, ltb, ◌==◌, Option-cases,
  Bool-cases, arith,
}
use fleet_management.Models.Fleet.{Vehicle, is_available, is_active}
use fleet_management.Session.{Db, Ambient}
use fleet_management.Station.{is_parked}
use fleet_management.Rental.{find_vehicle, find_rental, new_rental, rental_keys_hold, end_rental}
use fleet_management.Rental.Consistency.{IsConsistent}
use fleet_management.Rental.Answers.{active_has_vehicle}
use fleet_management.RentalRoutes.{start_rental_route, end_rental_route}
use fleet_management.App.{respond}

-- The end of a rental is answered by success, by 404 or by 409, and never by an internal error,
-- when the fleet is consistent (unique ids, and each vehicle rented exactly while one rental of it
-- is active).
pub end_rental_status :
    (env : Ambient) (request_id : String) (rental_id station_id : ℕ) (db : Db)
    → IsConsistent db
    → let status =
        (respond 200 request_id (end_rental_route env rental_id station_id db).0).status_code in
      (status ≡ 200) ⊎ ((status ≡ 404) ⊎ (status ≡ 409))
unfolding end_rental_route end_rental
end_rental_status env request_id rental_id station_id db c =
    elim (Option-cases (find_rental rental_id db)) [
      | inl missing ↦ inr (inl (ground arith))
      | inr (r, found) ↦ elim (Bool-cases (is_active r.status)) [
        | inr closed ↦ inr (inr (ground arith))
        | inl open_rental ↦ elim (Option-cases (find_vehicle r.vehicle_id db)) [
          | inl gone ↦
              absurd (
                active_has_vehicle rental_id db r found open_rental (c.one_rental r.vehicle_id)
                  gone)
          | inr (v, of_vehicle) ↦
              elim (Option-cases (find? (λ s. s.id == station_id) db.stations)) [
                | inl nowhere ↦ inr (inl (ground arith))
                | inr (st, at_station) ↦
                    elim (Bool-cases
                      (ltb (count_where (is_parked station_id) db.vehicles) st.capacity)) [
                        | inl room ↦ inl (ground arith)
                        | inr full ↦ inr (inr (ground arith))
                      ]
              ]
        ]
      ]
    ]

-- The vehicle is there and available, and the renter or the vehicle's station is not.
pub record BrokenStart (env : Ambient) (renter_id vehicle_id : ℕ) (db : Db) : Type 0 where
  pub vehicle : Vehicle
  pub found : find_vehicle vehicle_id db ≡ some vehicle
  pub free : is_available vehicle.status ≡ true
  pub broken : rental_keys_hold (new_rental env renter_id vehicle_id vehicle) db ≡ false

-- the status code of the answer to a start
abbrev start_status : Ambient → String → ℕ → ℕ → Db → ℕ
start_status env request_id renter_id vehicle_id db =
    (respond 201 request_id (start_rental_route env renter_id vehicle_id db).0).status_code
