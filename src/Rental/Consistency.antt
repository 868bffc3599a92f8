-- ===== src/Rental/Consistency.antt =====
-- The agreement of rentals and vehicles under `start_rental` and `end_rental` of
-- services/rental_service.py.
use fleet_management.Prelude.{
  ℕ, ◌≡◌, refl, sym, Bool, true, ◌&&◌, Option, none, some, [], ◌∷◌, ◌==◌, if◌then◌else◌,
  count_where, HasUniqueKeys, HasUniqueKeys-append, HasUniqueKeys-update, count_where-append,
  count-update, find?-update_self, find?-update_ne, find?-satisfies, inl, inr, arith,
}
use mathlib.Core.Path.{subst}
use fleet_management.Models.Fleet.{Vehicle, Rental, is_rented, is_active, is_available}
use fleet_management.Session.{Db, rentals, Ambient}
use fleet_management.Rental.Outcome.{Rejected-same, start_rental_outcome, end_rental_outcome}
use fleet_management.Rental.{
  new_rental, find_vehicle, find_rental, start_rental, end_rental, stage_start, stage_end,
  mark_rented, park_vehicle, complete_rental,
}

abbrev pub is_active_of : ℕ → Rental → Bool
is_active_of k r = r.vehicle_id == k && is_active r.status

-- the number of active rentals of a vehicle
abbrev pub active_rentals : ℕ → Db → ℕ
active_rentals k db = count_where (is_active_of k) db.rentals

abbrev pub rented_mark : Option Vehicle → ℕ
rented_mark none = 0
rented_mark (some v) = if is_rented v.status then 1 else 0

pub record IsConsistent (db : Db) : Type 0 where
  pub vehicle_keys : HasUniqueKeys (λ (v : Vehicle). v.id) db.vehicles
  pub rental_keys : HasUniqueKeys (λ (r : Rental). r.id) db.rentals
  pub one_rental : (k : ℕ) → active_rentals k db ≡ rented_mark (find_vehicle k db)

pub found_by_own_id :
    (k : ℕ) (r : Rental) (db : Db) → find_rental k db ≡ some r → find_rental r.id db ≡ some r
found_by_own_id k r db h =
    let same : r.id ≡ k =
      ground (arith, find?-satisfies (λ (x : Rental). x.id == k) db.rentals r h) in
    subst (λ j. find_rental j db ≡ some r) (sym same) h

stage_start-one :
    (rental : Rental) (db : Db) (v : Vehicle) (k : ℕ)
    → find_vehicle rental.vehicle_id db ≡ some v
    → is_available v.status ≡ true
    → is_active rental.status ≡ true
    → active_rentals k db ≡ rented_mark (find_vehicle k db)
    → active_rentals k (stage_start rental db)
      ≡ rented_mark (find_vehicle k (stage_start rental db))
stage_start-one rental db v k found free new one = ground (
  arith,
  count_where-append (is_active_of k) db.rentals (rental ∷ []),
  find?-update_self (λ (w : Vehicle). w.id) mark_rented (λ w. refl) rental.vehicle_id db.vehicles v,
  find?-update_ne (λ (w : Vehicle). w.id) mark_rented (λ w. refl) rental.vehicle_id k db.vehicles,
)

-- Starting a rental keeps the fleet consistent (unique ids, and each vehicle rented exactly while
-- one rental of it is active), whether it succeeds or is refused, when the database gives the new
-- rental an id that no rental has.
pub start_rental-IsConsistent :
    (env : Ambient) (renter_id vehicle_id : ℕ) (db : Db)
    → find_rental (env.new_id rentals 0) db ≡ none
    → IsConsistent db
    → IsConsistent (start_rental env renter_id vehicle_id db).1
start_rental-IsConsistent env renter_id vehicle_id db fresh c =
    elim (start_rental_outcome env renter_id vehicle_id db) [
      | inl rejected ↦ subst IsConsistent (sym (Rejected-same _ rejected)) c
      | inr s ↦ rw s.result (record {
        vehicle_keys =
            HasUniqueKeys-update (λ (w : Vehicle). w.id) mark_rented (λ w. refl) vehicle_id
              db.vehicles c.vehicle_keys;
        rental_keys =
            HasUniqueKeys-append (λ (r : Rental). r.id) db.rentals
              (new_rental env renter_id vehicle_id s.vehicle) c.rental_keys fresh;
        one_rental = λ k.
            stage_start-one (new_rental env renter_id vehicle_id s.vehicle) db s.vehicle k s.found
              s.free refl (c.one_rental k);
      })
    ]

stage_end-one :
    (now station_id : ℕ) (rental : Rental) (db : Db) (v : Vehicle) (k : ℕ)
    → HasUniqueKeys (λ (r : Rental). r.id) db.rentals
    → find_rental rental.id db ≡ some rental
    → find_vehicle rental.vehicle_id db ≡ some v
    → is_active rental.status ≡ true
    → active_rentals k db ≡ rented_mark (find_vehicle k db)
    → active_rentals k (stage_end now station_id rental db)
      ≡ rented_mark (find_vehicle k (stage_end now station_id rental db))
stage_end-one now station_id rental db v k keys found of_vehicle open_rental one = ground (
  arith,
  count-update (λ (r : Rental). r.id) (complete_rental now station_id) (λ r. refl) (is_active_of k)
      rental.id db.rentals rental keys found,
  find?-update_self (λ (w : Vehicle). w.id) (park_vehicle station_id) (λ w. refl) rental.vehicle_id
      db.vehicles v,
  find?-update_ne (λ (w : Vehicle). w.id) (park_vehicle station_id) (λ w. refl) rental.vehicle_id k
      db.vehicles,
)

-- Ending a rental keeps the fleet consistent (unique ids, and each vehicle rented exactly while
-- one rental of it is active), whether it succeeds or is refused.
pub end_rental-IsConsistent :
    (env : Ambient) (rental_id station_id : ℕ) (db : Db)
    → IsConsistent db
    → IsConsistent (end_rental env rental_id station_id db).1
end_rental-IsConsistent env rental_id station_id db c =
    elim (end_rental_outcome env rental_id station_id db) [
      | inl rejected ↦ subst IsConsistent (sym (Rejected-same _ rejected)) c
      | inr s ↦ rw s.result (record {
        vehicle_keys =
            HasUniqueKeys-update (λ (w : Vehicle). w.id) (park_vehicle station_id) (λ w. refl)
              s.rental.vehicle_id db.vehicles c.vehicle_keys;
        rental_keys =
            HasUniqueKeys-update (λ (r : Rental). r.id) (complete_rental (env.now 0) station_id)
              (λ r. refl) s.rental.id db.rentals c.rental_keys;
        one_rental = λ k.
            stage_end-one (env.now 0) station_id s.rental db s.vehicle k c.rental_keys
              (found_by_own_id rental_id s.rental db s.found) s.of_vehicle s.open_rental
              (c.one_rental k);
      })
    ]
