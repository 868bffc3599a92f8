-- ===== src/RentalRoutes/Revenue.antt =====
-- The summary of rentals (`rentals_summary` of src/fleet_management/api/rentals.py) when a rental
-- ends.
use mathlib.Core.Path.{subst}
use fleet_management.Prelude.{
  ℕ, ◌+◌, ◌≡◌, refl, sym, true, false, none, some, List, [], ◌∷◌, find?, update_where, ◌==◌,
  HasUniqueKeys, count-update, Bool-cases, inl, inr, arith,
}
use fleet_management.Models.Fleet.{
  Rental, RentalStatus, active, completed, cancelled, is_active, is_completed, is_cancelled,
}
use fleet_management.Session.{Db, Ambient, Result, ok, err}
use fleet_management.Rental.{calculate_cost, rate_per_hour, end_rental, complete_rental}
use fleet_management.Rental.Outcome.{Rejected, end_rental_outcome}
use fleet_management.Rental.Consistency.{found_by_own_id}
use fleet_management.RentalRoutes.{
  RentalRead, RentalsSummary, rentals_summary, total_revenue, completed_rental_revenue,
  end_rental_route, ended_read,
}

-- one more rental is completed and one fewer active, and the revenue is `cost` higher
pub record Completed (cost : ℕ) (before after : RentalsSummary) : Type 0 where
  pub fewer_active : after.active_count + 1 ≡ before.active_count
  pub more_completed : after.completed_count ≡ before.completed_count + 1
  pub same_cancelled : after.cancelled_count ≡ before.cancelled_count
  pub more_revenue : after.revenue ≡ before.revenue + cost

active_open : (s : RentalStatus) → is_active s ≡ true → is_completed s ≡ false
active_open active live = refl
active_open completed live = absurd (cc live)
active_open cancelled live = absurd (cc live)

active_kept : (s : RentalStatus) → is_active s ≡ true → is_cancelled s ≡ false
active_kept active live = refl
active_kept completed live = absurd (cc live)
active_kept cancelled live = absurd (cc live)

absent_update :
    (now station_id k : ℕ) (rs : List Rental)
    → find? (λ r. r.id == k) rs ≡ none
    → update_where (λ r. r.id == k) (complete_rental now station_id) rs ≡ rs
absent_update now station_id k [] none_there = refl
absent_update now station_id k (r ∷ rs) none_there =
    ground (arith, absent_update now station_id k rs)

revenue-update :
    (now station_id k : ℕ) (r : Rental) (rs : List Rental)
    → HasUniqueKeys (λ (x : Rental). x.id) rs
    → find? (λ x. x.id == k) rs ≡ some r
    → is_active r.status ≡ true
    → total_revenue (update_where (λ x. x.id == k) (complete_rental now station_id) rs)
      ≡ total_revenue rs + calculate_cost r.started_at now rate_per_hour
unfolding completed_rental_revenue
revenue-update now station_id k r [] keys found live = absurd (cc found)
revenue-update now station_id k r (x ∷ rs) keys found live = elim (Bool-cases (x.id == k)) [
  | inl same ↦
      let e : x.id ≡ k = ground arith in
      let alone : find? (λ y. y.id == k) rs ≡ none =
        subst (λ j. find? (λ y. y.id == j) rs ≡ none) e keys.0 in
      let is_r : x ≡ r = cc (rw same at found) in
      subst
        (λ (z : Rental).
          total_revenue (update_where (λ y. y.id == k) (complete_rental now station_id) (x ∷ rs))
          ≡ total_revenue (x ∷ rs) + calculate_cost z.started_at now rate_per_hour)
        is_r
        (rw same (
          rw (absent_update now station_id k rs alone) (
            rw
              (active_open x.status
                (subst (λ (z : Rental). is_active z.status ≡ true) (sym is_r) live))
              (omega arith))))
  | inr other ↦
      let later : find? (λ y. y.id == k) rs ≡ some r = rw other at found in
      rw other (omega (arith, revenue-update now station_id k r rs keys.1 later live))
]

-- When the route ends a rental it answers with a cost, and the summary of the rentals changes by
-- that alone: one rental is completed that was active, and the revenue grows by the cost, when no
-- two rentals share an id.
pub rentals_summary-end_rental :
    (env : Ambient) (rental_id station_id : ℕ) (db : Db) (read : RentalRead)
    → HasUniqueKeys (λ (x : Rental). x.id) db.rentals
    → (end_rental_route env rental_id station_id db).0 ≡ ok read
    → (cost : ℕ) × (read.cost ≡ some cost)
      × Completed cost
          (rentals_summary db)
          (rentals_summary (end_rental_route env rental_id station_id db).1)
unfolding end_rental_route rentals_summary
rentals_summary-end_rental env rental_id station_id db read keys done =
    elim (end_rental_outcome env rental_id station_id db) [
      | inl rejected ↦ absurd (no_answer (end_rental env rental_id station_id db) rejected done)
      | inr s ↦
          let now = env.now 0 in
          let cost = calculate_cost s.rental.started_at now rate_per_hour in
          let kept = found_by_own_id rental_id s.rental db s.found in
          (
            cost,
            ground (arith, s.result, done),
            rw s.result (record {
              fewer_active = ground (
                arith,
                count-update (λ (r : Rental). r.id) (complete_rental now station_id) (λ r. refl)
                    (λ r. is_active r.status) s.rental.id db.rentals s.rental keys kept,
                s.open_rental,
              );
              more_completed = ground (
                arith,
                count-update (λ (r : Rental). r.id) (complete_rental now station_id) (λ r. refl)
                    (λ r. is_completed r.status) s.rental.id db.rentals s.rental keys kept,
                active_open s.rental.status s.open_rental,
              );
              same_cancelled = ground (
                arith,
                count-update (λ (r : Rental). r.id) (complete_rental now station_id) (λ r. refl)
                    (λ r. is_cancelled r.status) s.rental.id db.rentals s.rental keys kept,
                active_kept s.rental.status s.open_rental,
              );
              more_revenue =
                  revenue-update now station_id s.rental.id s.rental db.rentals keys kept
                    s.open_rental;
            }),
          )
    ]
  where
    no_answer : (o : Result Rental × Db) → Rejected db o → (ended_read o).0 ≡ ok read → ⊥
    no_answer (ok a, after) h e = h
    no_answer (err x, after) h e = cc e
