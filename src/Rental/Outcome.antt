-- ===== src/Rental/Outcome.antt =====
-- How `start_rental` and `end_rental` of services/rental_service.py can end.
use fleet_management.Prelude.{
  ℕ, ◌<◌, ◌≡◌, ◌⊎◌, inl, inr, true, ◌==◌, some, find?, count_where, ltb, arith, Option-cases,
  Bool-cases,
}
use fleet_management.Models.Fleet.{Vehicle, Rental, Station, is_available, is_active}
use fleet_management.Session.{Db, Ambient, Result, ok, err}
use fleet_management.Station.{is_parked}
use fleet_management.Rental.{
  find_vehicle, find_rental, new_rental, rental_keys_hold, start_rental, end_rental, stage_start,
  stage_end, complete_rental,
}

-- a call that raised and committed nothing
abbrev pub Rejected : {A : Type 0} → Db → Result A × Db → Type 0
Rejected db (ok a, db') = ⊥
Rejected db (err e, db') = db' ≡ db

pub Rejected-same : {A : Type 0} {db : Db} (o : Result A × Db) → Rejected db o → o.1 ≡ db
Rejected-same (ok a, db') h = absurd h
Rejected-same (err e, db') h = h

-- a call that raised nothing: what it had found, and what it committed
pub record Started (env : Ambient) (renter_id vehicle_id : ℕ) (db : Db) : Type 0 where
  pub vehicle : Vehicle
  pub found : find_vehicle vehicle_id db ≡ some vehicle
  pub free : is_available vehicle.status ≡ true
  pub keys : rental_keys_hold (new_rental env renter_id vehicle_id vehicle) db ≡ true
  pub result : start_rental env renter_id vehicle_id db ≡ (
    ok (new_rental env renter_id vehicle_id vehicle),
    stage_start (new_rental env renter_id vehicle_id vehicle) db,
  )

pub record Ended (env : Ambient) (rental_id station_id : ℕ) (db : Db) : Type 0 where
  pub rental : Rental
  pub station : Station
  pub vehicle : Vehicle
  pub found : find_rental rental_id db ≡ some rental
  pub open_rental : is_active rental.status ≡ true
  pub at_station : find? (λ s. s.id == station_id) db.stations ≡ some station
  pub has_room : count_where (is_parked station_id) db.vehicles < station.capacity
  pub of_vehicle : find_vehicle rental.vehicle_id db ≡ some vehicle
  pub result : end_rental env rental_id station_id db ≡ (
    ok (complete_rental (env.now 0) station_id rental),
    stage_end (env.now 0) station_id rental db,
  )

-- A call of `start_rental` either raises and leaves every table as it was, or it found the vehicle
-- available and the foreign keys of the new rental in place, answers with that rental, and commits
-- it together with the vehicle's status.
pub start_rental_outcome :
    (env : Ambient) (renter_id vehicle_id : ℕ) (db : Db)
    → Rejected db (start_rental env renter_id vehicle_id db) ⊎ Started env renter_id vehicle_id db
unfolding start_rental
start_rental_outcome env renter_id vehicle_id db =
    elim (Option-cases (find_vehicle vehicle_id db)) [
      | inl missing ↦ inl (ground arith)
      | inr (v, found) ↦ elim (Bool-cases (is_available v.status)) [
        | inl free ↦
            elim (Bool-cases (rental_keys_hold (new_rental env renter_id vehicle_id v) db)) [
              | inl keys ↦ inr (record {
                vehicle = v;
                found = found;
                free = free;
                keys = keys;
                result = ground arith;
              })
              | inr broken ↦ inl (ground arith)
            ]
        | inr taken ↦ inl (ground arith)
      ]
    ]

-- A call of `end_rental` either raises and leaves every table as it was, or it found an active
-- rental, its vehicle and a station with fewer parked vehicles than places, answers with the
-- completed rental, and commits it together with the vehicle's status and station.
pub end_rental_outcome :
    (env : Ambient) (rental_id station_id : ℕ) (db : Db)
    → Rejected db (end_rental env rental_id station_id db) ⊎ Ended env rental_id station_id db
unfolding end_rental
end_rental_outcome env rental_id station_id db = elim (Option-cases (find_rental rental_id db)) [
  | inl missing ↦ inl (ground arith)
  | inr (r, found) ↦ elim (Bool-cases (is_active r.status)) [
    | inl open_rental ↦ elim (Option-cases (find? (λ s. s.id == station_id) db.stations)) [
      | inl nowhere ↦ inl (ground arith)
      | inr (st, at_station) ↦ elim (Option-cases (find_vehicle r.vehicle_id db)) [
        | inl gone ↦ inl (ground arith)
        | inr (v, of_vehicle) ↦
            elim (Bool-cases (ltb (count_where (is_parked station_id) db.vehicles) st.capacity)) [
              | inl room ↦ inr (record {
                rental = r;
                station = st;
                vehicle = v;
                found = found;
                open_rental = open_rental;
                at_station = at_station;
                has_room = ground arith;
                of_vehicle = of_vehicle;
                result = ground arith;
              })
              | inr full ↦ inl (ground arith)
            ]
      ]
    ]
    | inr closed ↦ inl (ground arith)
  ]
]

-- The calls succeed where each test passes.
pub start_rental_succeeds :
    (env : Ambient) (renter_id vehicle_id : ℕ) (db : Db) (v : Vehicle)
    → find_vehicle vehicle_id db ≡ some v
    → is_available v.status ≡ true
    → rental_keys_hold (new_rental env renter_id vehicle_id v) db ≡ true
    → start_rental env renter_id vehicle_id db ≡ (
      ok (new_rental env renter_id vehicle_id v),
      stage_start (new_rental env renter_id vehicle_id v) db,
    )
unfolding start_rental
start_rental_succeeds env renter_id vehicle_id db v found free hold = ground arith

pub end_rental_succeeds :
    (env : Ambient) (rental_id station_id : ℕ) (db : Db) (r : Rental) (st : Station) (v : Vehicle)
    → find_rental rental_id db ≡ some r
    → is_active r.status ≡ true
    → find? (λ s. s.id == station_id) db.stations ≡ some st
    → count_where (is_parked station_id) db.vehicles < st.capacity
    → find_vehicle r.vehicle_id db ≡ some v
    → end_rental env rental_id station_id db
      ≡ (ok (complete_rental (env.now 0) station_id r), stage_end (env.now 0) station_id r db)
unfolding end_rental
end_rental_succeeds env rental_id station_id db r st v found open_rental at_station room
      of_vehicle =
    ground arith
