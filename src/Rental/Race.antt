-- ===== src/Rental/Race.antt =====
-- Two requests for one vehicle. `start_rental` reads the vehicle (`db.get`, with no lock) and
-- writes later, at its commit; between the two another request may run.
use fleet_management.Prelude.{ℕ, ◌+◌, ◌≡◌, refl, true, not, [], ◌∷◌, count_where-append, arith}
use fleet_management.Models.Fleet.{Vehicle, Rental, is_available}
use fleet_management.Session.{
  Db, Ambient, Entity, not_found, vehicle_not_available, Action, ok, gets, or_raise, raise_if,
  commit_checked, pure, ◌>>=◌, ◌>>◌,
}
use fleet_management.Rental.{find_vehicle, new_rental, rental_keys_hold, start_rental, stage_start}
use fleet_management.Rental.Consistency.{active_rentals, is_active_of}

-- The first half: what the request reads and tests.
unfoldable pub check_start : ℕ → Action Vehicle
check_start vehicle_id = do
  found ← gets (find_vehicle vehicle_id)
  vehicle ← or_raise found (not_found Entity.vehicle vehicle_id)
  raise_if (not (is_available vehicle.status)) (vehicle_not_available Entity.vehicle vehicle_id)
  pure vehicle

-- The second half: the commit of what was staged from the vehicle that was read.
unfoldable pub commit_start : Ambient → ℕ → ℕ → Vehicle → Action Rental
commit_start env renter_id vehicle_id vehicle = do
  commit_checked (rental_keys_hold (new_rental env renter_id vehicle_id vehicle))
      (stage_start (new_rental env renter_id vehicle_id vehicle))
  pure (new_rental env renter_id vehicle_id vehicle)

-- With nothing between them the halves are `start_rental`.
start_rental-halves :
    (env : Ambient) (renter_id vehicle_id : ℕ) (db : Db)
    → start_rental env renter_id vehicle_id db
      ≡ (do v ← check_start vehicle_id; commit_start env renter_id vehicle_id v) db
unfolding start_rental check_start commit_start
start_rental-halves env renter_id vehicle_id db = ground arith

commit_start_lem :
    (env : Ambient) (renter_id vehicle_id : ℕ) (v : Vehicle) (db : Db)
    → rental_keys_hold (new_rental env renter_id vehicle_id v) db ≡ true
    → commit_start env renter_id vehicle_id v db ≡ (
      ok (new_rental env renter_id vehicle_id v),
      stage_start (new_rental env renter_id vehicle_id v) db,
    )
unfolding commit_start
commit_start_lem env renter_id vehicle_id v db hold = ground arith

-- Where two requests have both read a vehicle as available before either commits, and the foreign
-- keys of both rentals hold, both commits succeed and the vehicle has two active rentals more.
pub double_booking :
    (env env' : Ambient) (renter_id renter_id' vehicle_id : ℕ) (v : Vehicle) (db : Db)
    → check_start vehicle_id db ≡ (ok v, db)
    → rental_keys_hold (new_rental env renter_id vehicle_id v) db ≡ true
    → rental_keys_hold (new_rental env' renter_id' vehicle_id v) db ≡ true
    → let (first, mid) = commit_start env renter_id vehicle_id v db in
      let (second, after) = commit_start env' renter_id' vehicle_id v mid in
      (first ≡ ok (new_rental env renter_id vehicle_id v))
      × (second ≡ ok (new_rental env' renter_id' vehicle_id v))
      × (active_rentals vehicle_id after ≡ active_rentals vehicle_id db + 2)
double_booking env env' renter_id renter_id' vehicle_id v db both hold hold' =
    let one = stage_start (new_rental env renter_id vehicle_id v) db in
    rw (commit_start_lem env renter_id vehicle_id v db hold) (
      rw (commit_start_lem env' renter_id' vehicle_id v one hold') (
        refl,
        refl,
        ground (
          arith,
          count_where-append (is_active_of vehicle_id) db.rentals
              (new_rental env renter_id vehicle_id v ∷ []),
          count_where-append (is_active_of vehicle_id) one.rentals
              (new_rental env' renter_id' vehicle_id v ∷ []),
        ),
      ))
