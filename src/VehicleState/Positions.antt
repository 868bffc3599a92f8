-- ===== src/VehicleState/Positions.antt =====
-- What `get_fleet_positions` of services/vehicle_state_service.py shows.
use fleet_management.Prelude.{
  ℕ, String, ◌≡◌, refl, ap, Bool, true, false, not, ◌||◌, Option, none, some, List, [], ◌∷◌, map,
  select, find?, order_by, is_some, ◌==◌, if◌then◌else◌, Bool-cases, inl, inr, arith,
}
use fleet_management.Models.Fleet.{Vehicle}
use fleet_management.Telemetry.{Floats, Codec, TelemetryMessage, CachedState, vehicle_state_key}
use fleet_management.VehicleState.{
  VehicleStateRead, FleetPositionsRead, from_cache, newer_of, latest_reading,
}
use fleet_management.VehicleState.Fleet.{add_cached, place, place_all, get_fleet_positions}

module _ (F : Floats) (codec : Codec F) where
  -- There is a map: it has positions of the vehicles `shown` and lists `missing` as those without
  -- telemetry, both in this order, and is marked as degraded or not.
  abbrev pub Shows : (shown missing : List ℕ) → Bool → Option (FleetPositionsRead F) → Type 0
  Shows shown missing degraded none = ⊥
  Shows shown missing degraded (some fleet) =
      (map (λ p. p.vehicle_id) fleet.positions ≡ shown)
      × (fleet.without_telemetry ≡ missing)
      × (fleet.degraded ≡ degraded)

  -- The texts of a cached state can be read.
  abbrev pub ReadsBack : ℕ → Option CachedState → Type 0
  ReadsBack v none = Unit
  ReadsBack v (some c) = is_some (from_cache F codec v c) ≡ true

  -- Something is known of a vehicle: a state in the cache, or a stored reading.
  abbrev pub is_known : (ℕ → Option CachedState) → List (TelemetryMessage F) → Vehicle → Bool
  is_known cached readings v =
      is_some (cached v.id) || is_some (find? (λ r. r.vehicle_id == v.id) readings)

  -- What the cache gives, which is nothing where Redis does not answer.
  abbrev pub answered : Bool → (String → Option CachedState) → ℕ → Option CachedState
  answered redis_up redis k = if redis_up then redis (vehicle_state_key F codec k) else none

  -- The cache is read for a fleet that has vehicles, and the read fails.
  abbrev pub is_degraded : Bool → List Vehicle → Bool
  is_degraded redis_up [] = false
  is_degraded redis_up (v ∷ vs) = not redis_up

  newer_is_some :
      (r : TelemetryMessage F) (o : Option (TelemetryMessage F))
      → is_some (newer_of F codec r o) ≡ true
  newer_is_some r none = refl
  newer_is_some r (some q) = ground arith

  latest_reading-is_some :
      (v : ℕ) (rs : List (TelemetryMessage F))
      → is_some (latest_reading F codec v rs) ≡ is_some (find? (λ r. r.vehicle_id == v) rs)
  unfolding latest_reading
  latest_reading-is_some v [] = refl
  latest_reading-is_some v (r ∷ rs) = elim (Bool-cases (r.vehicle_id == v)) [
    | inl own ↦ rw own (newer_is_some r (latest_reading F codec v rs))
    | inr other ↦ rw other (latest_reading-is_some v rs)
  ]

  added :
      (v : Vehicle) (degraded : Bool) (state : Option (VehicleStateRead F)) (shown missing : List ℕ)
      (rest : Option (FleetPositionsRead F))
      → is_some state ≡ true
      → Shows shown missing degraded rest
      → Shows (v.id ∷ shown) missing degraded (add_cached F codec v state rest)
  added v degraded none shown missing rest reads h = absurd (cc reads)
  added v degraded (some state) shown missing none reads h = absurd h
  added v degraded (some state) shown missing (some fleet) reads h =
      (ap (λ ks. v.id ∷ ks) h.0, h.1, h.2)

  placed :
      (v : Vehicle) (degraded : Bool) (c : Option CachedState) (r : Option (TelemetryMessage F))
      (shown missing : List ℕ) (rest : Option (FleetPositionsRead F))
      → ReadsBack v.id c
      → Shows shown missing degraded rest
      → Shows
          (if is_some c || is_some r then v.id ∷ shown else shown)
          (if not (is_some c || is_some r) then v.id ∷ missing else missing)
          degraded
          (place F codec v degraded c r rest)
  placed v degraded (some c) r shown missing rest reads h =
      added v degraded (from_cache F codec v.id c) shown missing rest reads h
  placed v degraded none r shown missing none reads h = absurd h
  placed v degraded none (some r) shown missing (some fleet) reads h =
      (ap (λ ks. v.id ∷ ks) h.0, h.1, h.2)
  placed v degraded none none shown missing (some fleet) reads h =
      (h.0, ap (λ ks. v.id ∷ ks) h.1, h.2)

  place_all-Shows :
      (degraded : Bool) (cached : ℕ → Option CachedState) (readings : List (TelemetryMessage F))
      (vs : List Vehicle)
      → ((k : ℕ) → ReadsBack k (cached k))
      → Shows
          (map (λ v. v.id) (select (is_known cached readings) vs))
          (map (λ v. v.id) (select (λ v. not (is_known cached readings v)) vs))
          degraded
          (place_all F codec degraded cached readings vs)
  unfolding place_all
  place_all-Shows degraded cached readings [] reads = (refl, refl, refl)
  place_all-Shows degraded cached readings (v ∷ vs) reads =
      let rest = place_all F codec degraded cached readings vs in
      let shown = map (λ (w : Vehicle). w.id) (select (is_known cached readings) vs) in
      let missing =
        map (λ (w : Vehicle). w.id) (select (λ w. not (is_known cached readings w)) vs) in
      let here : Shows (if is_known cached readings v then v.id ∷ shown else shown)
          (if not (is_known cached readings v) then v.id ∷ missing else missing) degraded
          (place F codec v degraded (cached v.id) (latest_reading F codec v.id readings) rest) =
        rw (← latest_reading-is_some v.id readings) (
          placed v degraded (cached v.id) (latest_reading F codec v.id readings) shown missing rest
            (reads v.id) (place_all-Shows degraded cached readings vs reads)) in
      elim (Bool-cases (is_known cached readings v)) [
        | inl known ↦ rw known (rw known at here)
        | inr unknown ↦ rw unknown (rw unknown at here)
      ]

  -- When every cached state can be read back, there always is a map: in the order of their ids, it
  -- has a position of each vehicle of which the cache, where it answered, has a state or a reading
  -- is stored, lists exactly the other vehicles as without telemetry, and is marked as degraded
  -- exactly where the fleet has vehicles and the cache did not answer.
  pub get_fleet_positions-Shows :
      (redis_up : Bool) (redis : String → Option CachedState) (readings : List (TelemetryMessage F))
      (vehicles : List Vehicle)
      → ((k : ℕ) → ReadsBack k (redis (vehicle_state_key F codec k)))
      → let sorted = order_by (λ (v : Vehicle). v.id) vehicles in
        let known = is_known (answered redis_up redis) readings in
        Shows
          (map (λ v. v.id) (select known sorted))
          (map (λ v. v.id) (select (λ v. not (known v)) sorted))
          (is_degraded redis_up vehicles)
          (get_fleet_positions F codec redis_up redis readings vehicles)
  unfolding get_fleet_positions
  get_fleet_positions-Shows redis_up redis readings [] reads = (refl, refl, refl)
  get_fleet_positions-Shows true redis readings (v ∷ vs) reads =
      place_all-Shows false (answered true redis) readings (order_by (λ x. x.id) (v ∷ vs)) reads
  get_fleet_positions-Shows false redis readings (v ∷ vs) reads =
      place_all-Shows true (answered false redis) readings (order_by (λ x. x.id) (v ∷ vs)) (λ k. tt)
