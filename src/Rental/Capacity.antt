-- ===== src/Rental/Capacity.antt =====
-- The places of stations under `start_rental` and `end_rental` of services/rental_service.py, and
-- the return of a rental that was just started.
use mathlib.Core.Path.{subst}
use fleet_management.Prelude.{
  ℕ, [], ◌∷◌, ◌∙◌, ◌<◌, ◌≤◌, ◌≡◌, refl, sym, Option, none, some, ◌==◌, true, Bool-cases,
  update_where, find?, count_where, inl, inr, arith, HasUniqueKeys, count-update, find?-update_self,
  find?-append,
}
use fleet_management.Models.Fleet.{Vehicle, Rental, Station, is_available, completed}
use fleet_management.Session.{Db, rentals, Ambient, ok}
use fleet_management.Station.{is_parked}
use fleet_management.Rental.{
  find_vehicle, find_rental, new_rental, start_rental, end_rental, stage_start, mark_rented,
  park_vehicle, rental_keys_hold, complete_rental,
}
use fleet_management.Rental.Outcome.{
  start_rental_succeeds, end_rental_succeeds, start_rental_outcome, end_rental_outcome,
  Rejected-same,
}

abbrev pub parked : ℕ → Db → ℕ
parked station_id db = count_where (is_parked station_id) db.vehicles

abbrev pub find_station : ℕ → Db → Option Station
find_station k db = find? (λ s. s.id == k) db.stations

-- The row of every station has room for the vehicles that stand there.
abbrev pub FitsStations : Db → Type 0
FitsStations db = (k : ℕ) (s : Station) → find_station k db ≡ some s → parked k db ≤ s.capacity

stage_start-parked :
    (env : Ambient) (renter_id vehicle_id k : ℕ) (v : Vehicle) (db : Db)
    → HasUniqueKeys (λ (w : Vehicle). w.id) db.vehicles
    → find_vehicle vehicle_id db ≡ some v
    → parked k (stage_start (new_rental env renter_id vehicle_id v) db) ≤ parked k db
stage_start-parked env renter_id vehicle_id k v db keys found = ground (
  arith,
  count-update (λ (w : Vehicle). w.id) mark_rented (λ w. refl) (is_parked k) vehicle_id db.vehicles
      v keys found,
)

-- Starting a rental puts no vehicle anywhere, so no station overflows by it.
pub start_rental-FitsStations :
    (env : Ambient) (renter_id vehicle_id : ℕ) (db : Db)
    → HasUniqueKeys (λ (w : Vehicle). w.id) db.vehicles
    → FitsStations db
    → FitsStations (start_rental env renter_id vehicle_id db).1
start_rental-FitsStations env renter_id vehicle_id db keys fits =
    elim (start_rental_outcome env renter_id vehicle_id db) [
      | inl rejected ↦ subst FitsStations (sym (Rejected-same _ rejected)) fits
      | inr s ↦ rw s.result λ k st e. omega (
        arith,
        fits k st e,
        stage_start-parked env renter_id vehicle_id k s.vehicle db keys s.found,
      )
    ]

stage_end-parked :
    (now station_id k vehicle_id : ℕ) (v : Vehicle) (st : Station) (db : Db)
    → HasUniqueKeys (λ (w : Vehicle). w.id) db.vehicles
    → find_vehicle vehicle_id db ≡ some v
    → find_station station_id db ≡ some st
    → parked station_id db < st.capacity
    → (s : Station) → find_station k db ≡ some s
    → parked k db ≤ s.capacity
    → count_where
        (is_parked k)
        (update_where (λ w. w.id == vehicle_id) (park_vehicle station_id) db.vehicles)
      ≤ s.capacity
stage_end-parked now station_id k vehicle_id v st db keys found at_station room s e fits =
    elim (Bool-cases (station_id == k)) [
      | inl same ↦
          let eq : station_id ≡ k = ground arith in
          let e' : find_station k db ≡ some st =
            subst (λ j. find_station j db ≡ some st) eq at_station in
          let room' : parked k db < st.capacity = subst (λ j. parked j db < st.capacity) eq room in
          ground (
            arith,
            count-update (λ (w : Vehicle). w.id) (park_vehicle station_id) (λ w. refl) (is_parked k)
                vehicle_id db.vehicles v keys found,
          )
      | inr other ↦ ground (
        arith,
        count-update (λ (w : Vehicle). w.id) (park_vehicle station_id) (λ w. refl) (is_parked k)
            vehicle_id db.vehicles v keys found,
      )
    ]

-- Where no two vehicles share an id and no station holds more parked vehicles than it has places,
-- none does after a call that ends a rental.
pub end_rental-FitsStations :
    (env : Ambient) (rental_id station_id : ℕ) (db : Db)
    → HasUniqueKeys (λ (w : Vehicle). w.id) db.vehicles
    → FitsStations db
    → FitsStations (end_rental env rental_id station_id db).1
end_rental-FitsStations env rental_id station_id db keys fits =
    elim (end_rental_outcome env rental_id station_id db) [
      | inl rejected ↦ subst FitsStations (sym (Rejected-same _ rejected)) fits
      | inr s ↦ rw s.result λ k st e.
          stage_end-parked (env.now 0) station_id k s.rental.vehicle_id s.vehicle s.station db keys
            s.of_vehicle s.at_station s.has_room st e (fits k st e)
    ]

-- The rental of a round trip once it is closed: completed, at the station where it began.
abbrev pub closed_rental : Ambient → Ambient → ℕ → ℕ → ℕ → Rental
closed_rental env later renter_id vehicle_id station_id = record {
  id = env.new_id rentals 0;
  renter_id = renter_id;
  vehicle_id = vehicle_id;
  start_station_id = station_id;
  end_station_id = some station_id;
  started_at = env.now 0;
  ended_at = some (later.now 0);
  status = completed;
}

-- A rental that was just started can be ended at its start station at once, when that station
-- stands in the table and was not overfull, the vehicle was available, the foreign keys of the
-- rental hold, no two vehicles share an id and the rental's id is new: the return succeeds, the
-- vehicle's row is what it was, and what is answered and stands in the table is the rental with its
-- start, completed at that station at the moment of the return.
pub end_rental-start_rental :
    (env later : Ambient) (renter_id vehicle_id : ℕ) (db : Db) (v : Vehicle) (st : Station)
    → HasUniqueKeys (λ (w : Vehicle). w.id) db.vehicles
    → find_rental (env.new_id rentals 0) db ≡ none
    → find_vehicle vehicle_id db ≡ some v
    → is_available v.status ≡ true
    → rental_keys_hold (new_rental env renter_id vehicle_id v) db ≡ true
    → find_station v.station_id db ≡ some st
    → parked v.station_id db ≤ st.capacity
    → let started = (start_rental env renter_id vehicle_id db).1 in
      let ended = end_rental later (env.new_id rentals 0) v.station_id started in
      (ended.0 ≡ ok (closed_rental env later renter_id vehicle_id v.station_id))
      × (find_vehicle vehicle_id ended.1 ≡ some v)
      × (find_rental (env.new_id rentals 0) ended.1
          ≡ some (closed_rental env later renter_id vehicle_id v.station_id))
end_rental-start_rental env later renter_id vehicle_id db v st keys fresh found free hold at_station
      fits =
    let new = new_rental env renter_id vehicle_id v in
    let mid = stage_start new db in
    let of_vehicle : find_vehicle vehicle_id mid ≡ some (mark_rented v) =
      find?-update_self (λ (w : Vehicle). w.id) mark_rented (λ w. refl) vehicle_id db.vehicles v
        found in
    let stands : find_rental new.id mid ≡ some new =
      ground (arith, find?-append (λ (r : Rental). r.id == new.id) db.rentals (new ∷ [])) in
    let room : parked v.station_id mid < st.capacity = ground (
      arith,
      count-update (λ (w : Vehicle). w.id) mark_rented (λ w. refl) (is_parked v.station_id)
          vehicle_id db.vehicles v keys found,
    ) in
    rw (start_rental_succeeds env renter_id vehicle_id db v found free hold) (
      rw
        (end_rental_succeeds later new.id v.station_id mid new st (mark_rented v) stands refl
          at_station room of_vehicle)
        (
          refl,
          find?-update_self (λ (w : Vehicle). w.id) (park_vehicle v.station_id) (λ w. refl)
                vehicle_id mid.vehicles (mark_rented v) of_vehicle
              ∙ ground arith,
          find?-update_self (λ (r : Rental). r.id) (complete_rental (later.now 0) v.station_id)
              (λ r. refl) new.id mid.rentals new stands,
        ))
