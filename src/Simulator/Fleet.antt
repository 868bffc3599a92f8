-- ===== src/Simulator/Fleet.antt =====
-- The simulated fleet follows the API's listing: telemetry/simulator.py of src/fleet_management.
use mathlib.Core.Path.{subst}
use fleet_management.Prelude.{
  ℕ, zero, suc, ◌+◌, ◌-◌, ◌%◌, ◌<◌, ◌≡◌, refl, ap, ◌∙◌, Bool, true, false, not, ◌&&◌, Option, none,
  some, List, [], ◌∷◌, ◌++◌, length, find?, is_some, update_where, ◌==◌, if◌then◌else◌,
  find?-append, find?-update_self, find?-update_ne, Option-cases, Bool-cases, inl, inr, arith,
}
use fleet_management.Models.Fleet.{VehicleStatus, is_rented}
use fleet_management.Telemetry.{Floats}
use fleet_management.Simulator.{
  Bank, Hub, all_hubs, hub_at, station_hub, Arithmetic, Rng, SimVehicle, Listed, park_at,
  park_at_station, driving, new_vehicle, follow, sync_one, sync_fleet,
}

hub_at_some : (hs : List (Bank × Hub)) (n : ℕ) → n < length hs → is_some (hub_at hs n) ≡ true
hub_at_some [] n h = absurd (omega (arith, h))
hub_at_some (x ∷ hs) zero h = refl
hub_at_some (x ∷ hs) (suc n) h = hub_at_some hs n (omega (arith, h))

-- Every station is pinned to a hub.
pub station_hub_some : (station_id : ℕ) → is_some (station_hub station_id) ≡ true
unfolding station_hub
station_hub_some station_id =
    hub_at_some all_hubs ((station_id + (length all_hubs - 1)) % length all_hubs) (omega arith)

module _ (F : Floats) (M : Arithmetic F) where
  -- Where the simulator takes a vehicle to be: its status and its station.
  abbrev pub placed : Option (SimVehicle F) → Option (VehicleStatus × ℕ)
  placed none = none
  placed (some v) = some (v.status, v.station_id)

  abbrev pub placed_in : ℕ → List (SimVehicle F) → Option (VehicleStatus × ℕ)
  placed_in k fleet = placed (find? (λ v. v.vehicle_id == k) fleet)

  -- What a listing says of a vehicle: its last row, or else what was known before.
  abbrev pub last_listed : ℕ → Option (VehicleStatus × ℕ) → List Listed → Option (VehicleStatus × ℕ)
  last_listed k known [] = known
  last_listed k known (row ∷ listed) =
      last_listed k (if row.id == k then some (row.status, row.station_id) else known) listed

  record SameVehicle (v w : SimVehicle F) : Type 0 where
    id : w.vehicle_id ≡ v.vehicle_id
    state : placed (some w) ≡ placed (some v)

  park_at_same :
      (rng : Rng F) (first : ℕ) (hub : Option (Bank × Hub)) (v : SimVehicle F)
      → SameVehicle v (park_at F M rng first hub v)
  park_at_same rng first none v = record { id = refl; state = refl }
  park_at_same rng first (some (bank, hub)) v = record { id = refl; state = refl }

  park_at_station_same :
      (rng : Rng F) (first : ℕ) (v : SimVehicle F) → SameVehicle v (park_at_station F M rng first v)
  unfolding park_at_station
  park_at_station_same rng first v = park_at_same rng first (station_hub v.station_id) v

  follow_lem :
      (rng : Rng F) (row : Listed) (v : SimVehicle F)
      → SameVehicle
          (record v { status = row.status; station_id = row.station_id })
          (follow F M rng row v)
  follow_lem rng row v = by_test (driving F M v && not (is_rented row.status))
    where
      moved : SimVehicle F
      moved = record v { status = row.status; station_id = row.station_id }

      by_test :
          (b : Bool) → SameVehicle moved (if b then park_at_station F M rng 0 moved else moved)
      by_test true = park_at_station_same rng 0 moved
      by_test false = record { id = refl; state = refl }

  abbrev find_sim : ℕ → List (SimVehicle F) → Option (SimVehicle F)
  find_sim k fleet = find? (λ v. v.vehicle_id == k) fleet

  find_appended :
      (id k : ℕ) (fleet : List (SimVehicle F)) (w : SimVehicle F)
      → w.vehicle_id ≡ id
      → find_sim id fleet ≡ none
      → find_sim k (fleet ++ w ∷ []) ≡ (if id == k then some w else find_sim k fleet)
  find_appended id k fleet w own missing = elim (Bool-cases (id == k)) [
    | inl same ↦
        let e : id ≡ k = ground (arith, same) in
        let none_k : find_sim k fleet ≡ none = subst (λ j. find_sim j fleet ≡ none) e missing in
        ground
          (arith, find?-append (λ (v : SimVehicle F). v.vehicle_id == k) fleet (w ∷ []), none_k)
    | inr other ↦
        ground (arith, find?-append (λ (v : SimVehicle F). v.vehicle_id == k) fleet (w ∷ []), other)
  ]

  find_updated :
      (id k : ℕ) (f : SimVehicle F → SimVehicle F) (fleet : List (SimVehicle F)) (v : SimVehicle F)
      → ((x : SimVehicle F) → (f x).vehicle_id ≡ x.vehicle_id)
      → find_sim id fleet ≡ some v
      → find_sim k (update_where (λ x. x.vehicle_id == id) f fleet)
        ≡ (if id == k then some (f v) else find_sim k fleet)
  find_updated id k f fleet v keeps found = elim (Bool-cases (id == k)) [
    | inl same ↦
        let e : id ≡ k = ground (arith, same) in
        rw same (
          subst (λ j. find_sim j (update_where (λ x. x.vehicle_id == id) f fleet) ≡ some (f v)) e
            (find?-update_self (λ (x : SimVehicle F). x.vehicle_id) f keeps id fleet v found))
    | inr other ↦ rw other (
        find?-update_ne (λ (x : SimVehicle F). x.vehicle_id) f keeps id k fleet
          (λ (e : k ≡ id). ground (arith, other)))
  ]

  by_row :
      (b : Bool) (w : SimVehicle F) (o : Option (SimVehicle F)) (state : VehicleStatus × ℕ)
      → placed (some w) ≡ some state
      → placed (if b then some w else o) ≡ (if b then some state else placed o)
  by_row true w o state e = e
  by_row false w o state e = refl

  sync_one_lem :
      (rng : Rng F) (row : Listed) (fleet : List (SimVehicle F)) (k : ℕ)
      → placed_in k (sync_one F M rng row fleet)
        ≡ (if row.id == k then some (row.status, row.station_id) else placed_in k fleet)
  sync_one_lem rng row fleet k = elim (Option-cases (find? (λ v. v.vehicle_id == row.id) fleet)) [
    | inl missing ↦
        let new = park_at_station F M rng 2 (new_vehicle F M rng row) in
        let same = park_at_station_same rng 2 (new_vehicle F M rng row) in
        rw missing (
          ap placed (find_appended row.id k fleet new same.id missing)
          ∙ by_row (row.id == k) new (find_sim k fleet) (row.status, row.station_id) same.state)
    | inr (v, found) ↦ rw found (
        ap placed (
          find_updated row.id k (follow F M rng row) fleet v (λ x. (follow_lem rng row x).id) found)
        ∙ by_row (row.id == k) (follow F M rng row v) (find_sim k fleet)
            (row.status, row.station_id) (follow_lem rng row v).state)
  ]

  -- After a listing each vehicle stands as the last row about it says, or, where no row is about it,
  -- as it stood before.
  pub sync_fleet-last_listed :
      (k : ℕ) (rngs : ℕ → Rng F) (listed : List Listed) (fleet : List (SimVehicle F))
      → placed_in k (sync_fleet F M rngs listed fleet) ≡ last_listed k (placed_in k fleet) listed
  unfolding sync_fleet
  sync_fleet-last_listed k rngs [] fleet = refl
  sync_fleet-last_listed k rngs (row ∷ listed) fleet =
      sync_fleet-last_listed k (λ i. rngs (suc i)) listed (sync_one F M (rngs 0) row fleet)
      ∙ ap (λ known. last_listed k known listed) (sync_one_lem (rngs 0) row fleet k)
