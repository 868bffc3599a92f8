-- ===== src/System/View.antt =====
-- What the fleet is to its users: where each vehicle stands or who drives it, the moves between such
-- states, and how the tables of src/fleet_management show one.
use mathlib.Core.Path.{subst}
use fleet_management.Prelude.{
  ℕ, ◌≤◌, update_missing, counted, ◌≡◌, ◌≢◌, refl, Bool, true, false, Option, none, some, List, [],
  ◌∷◌, find?, count_where, update_where, map_option, ◌==◌, HasUniqueKeys, find?-append,
  find?-update_self, find?-update_ne, Bool-cases, inl, inr, arith,
}
use fleet_management.Models.Fleet.{
  Vehicle, VehicleStatus, available, rented, maintenance, Rental, is_active, is_available,
}
use fleet_management.Session.{Db}
use fleet_management.Rental.{
  find_vehicle, find_rental, mark_rented, park_vehicle, complete_rental, stage_start, stage_end,
}
use fleet_management.Rental.Consistency.{is_active_of, active_rentals, rented_mark}

pub data Place : Type 0 where
  waiting : (station_id : ℕ) → Place
  in_service : (station_id : ℕ) → Place
  driven_by : (renter_id : Option ℕ) → Place

abbrev pub Fleet : Type 0
Fleet = ℕ → Option Place

-- One vehicle gets a place, and the others keep theirs.
pub record Moved (k : ℕ) (place : Place) (before after : Fleet) : Type 0 where
  pub there : after k ≡ some place
  pub others : (j : ℕ) → j ≢ k → after j ≡ before j

pub data Move (before after : Fleet) : Type 0 where
  stays : ((k : ℕ) → after k ≡ before k) → Move before after
  joins :
      (k station_id : ℕ)
      → before k ≡ none
      → Moved k (waiting station_id) before after
      → Move before after
  departs :
      (k station_id renter_id : ℕ)
      → before k ≡ some (waiting station_id)
      → Moved k (driven_by (some renter_id)) before after
      → Move before after
  returns :
      (k renter_id station_id : ℕ)
      → before k ≡ some (driven_by (some renter_id))
      → Moved k (waiting station_id) before after
      → Move before after

-- the active rental of a vehicle
abbrev pub rental_of : ℕ → Db → Option Rental
rental_of k db = find? (is_active_of k) db.rentals

abbrev pub place_of : VehicleStatus → ℕ → Option Rental → Place
place_of available station_id rental = waiting station_id
place_of maintenance station_id rental = in_service station_id
place_of rented station_id rental = driven_by (map_option (λ (r : Rental). r.renter_id) rental)

abbrev pub place_in : Option Rental → Option Vehicle → Option Place
place_in rental none = none
place_in rental (some v) = some (place_of v.status v.station_id rental)

abbrev pub view : Db → Fleet
view db k = place_in (rental_of k db) (find_vehicle k db)

none_of_zero {ℓ} :
    {A : Type ℓ} (p : A → Bool) (xs : List A) → count_where p xs ≡ 0 → find? p xs ≡ none
none_of_zero p [] h = refl
none_of_zero p (x ∷ xs) h = ground (arith, none_of_zero p xs)

-- The only row that meets a condition is the row that a query by key has found to meet it.
only_row {ℓ} :
    {A : Type ℓ} (key : A → ℕ) (p : A → Bool) (k : ℕ) (xs : List A) (x : A)
    → find? (λ y. key y == k) xs ≡ some x
    → p x ≡ true
    → count_where p xs ≤ 1
    → find? p xs ≡ some x
only_row key p k [] x found meets one = cc
only_row key p k (y ∷ xs) x found meets one =
    ground (arith, counted key p k xs x, only_row key p k xs x)

-- A change of one row does not show in a query that neither it nor the changed row meets.
find?-update_unmet {ℓ} :
    {A : Type ℓ} (key : A → ℕ) (p : A → Bool) (f : A → A) (keeps : (x : A) → key (f x) ≡ key x)
    (k : ℕ) (xs : List A) (x : A)
    → HasUniqueKeys key xs
    → find? (λ y. key y == k) xs ≡ some x
    → p x ≡ false
    → p (f x) ≡ false
    → find? p (update_where (λ y. key y == k) f xs) ≡ find? p xs
find?-update_unmet key p f keeps k [] x u found before after = refl
find?-update_unmet key p f keeps k (y ∷ xs) x u found before after =
    elim (Bool-cases (key y == k)) [
      | inl here ↦
          let e : key y ≡ k = ground arith in
          let alone : find? (λ z. key z == k) xs ≡ none =
            subst (λ j. find? (λ z. key z == j) xs ≡ none) e u.0 in
          ground (arith, here, update_missing key f keeps k xs alone)
      | inr later ↦ ground (arith, later, find?-update_unmet key p f keeps k xs x u.1)
    ]

pub stage_start-Moved :
    (rental : Rental) (db : Db) (v : Vehicle)
    → find_vehicle rental.vehicle_id db ≡ some v
    → is_available v.status ≡ true
    → is_active rental.status ≡ true
    → active_rentals rental.vehicle_id db ≡ rented_mark (find_vehicle rental.vehicle_id db)
    → Moved rental.vehicle_id
        (driven_by (some rental.renter_id))
        (view db)
        (view (stage_start rental db))
stage_start-Moved rental db v found free new one = record {
  there = ground (
    arith,
    none_of_zero (is_active_of rental.vehicle_id) db.rentals,
    find?-append (is_active_of rental.vehicle_id) db.rentals (rental ∷ []),
    find?-update_self (λ (w : Vehicle). w.id) mark_rented (λ w. refl) rental.vehicle_id db.vehicles
        v,
  );
  others = λ k ne. ground (
    arith,
    find?-append (is_active_of k) db.rentals (rental ∷ []),
    find?-update_ne (λ (w : Vehicle). w.id) mark_rented (λ w. refl) rental.vehicle_id k db.vehicles,
  );
}

pub driven :
    (rental : Rental) (db : Db) (v : Vehicle)
    → find_rental rental.id db ≡ some rental
    → find_vehicle rental.vehicle_id db ≡ some v
    → is_active rental.status ≡ true
    → active_rentals rental.vehicle_id db ≡ rented_mark (find_vehicle rental.vehicle_id db)
    → view db rental.vehicle_id ≡ some (driven_by (some rental.renter_id))
driven rental db v found of_vehicle open_rental one = ground (
  arith,
  counted (λ (r : Rental). r.id) (is_active_of rental.vehicle_id) rental.id db.rentals rental found,
  only_row (λ (r : Rental). r.id) (is_active_of rental.vehicle_id) rental.id db.rentals rental
      found,
)

pub stage_end-Moved :
    (now station_id : ℕ) (rental : Rental) (db : Db) (v : Vehicle)
    → HasUniqueKeys (λ (r : Rental). r.id) db.rentals
    → find_rental rental.id db ≡ some rental
    → find_vehicle rental.vehicle_id db ≡ some v
    → Moved rental.vehicle_id
        (waiting station_id)
        (view db)
        (view (stage_end now station_id rental db))
stage_end-Moved now station_id rental db v keys found of_vehicle = record {
  there = ground (
    arith,
    find?-update_self (λ (w : Vehicle). w.id) (park_vehicle station_id) (λ w. refl)
        rental.vehicle_id db.vehicles v,
  );
  others = λ k ne. ground (
    arith,
    find?-update_unmet (λ (r : Rental). r.id) (is_active_of k) (complete_rental now station_id)
        (λ r. refl) rental.id db.rentals rental keys found,
    find?-update_ne (λ (w : Vehicle). w.id) (park_vehicle station_id) (λ w. refl) rental.vehicle_id
        k db.vehicles,
  );
}
