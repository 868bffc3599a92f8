-- ===== src/VehicleState/Fleet.antt =====
-- The map of the fleet: `get_fleet_positions` of services/vehicle_state_service.py,
-- src/fleet_management.
use fleet_management.Prelude.{
  ℕ, String, Bool, true, false, Option, none, some, List, [], ◌∷◌, order_by,
}
use fleet_management.Models.Fleet.{Vehicle}
use fleet_management.Telemetry.{Floats, Codec, TelemetryMessage, CachedState, vehicle_state_key}
use fleet_management.VehicleState.{
  VehicleStateRead, VehiclePositionRead, FleetPositionsRead, from_cache, from_reading,
  latest_reading,
}

module _ (F : Floats) (codec : Codec F) where
  abbrev pub position : Vehicle → VehicleStateRead F → VehiclePositionRead F
  position vehicle state = record {
    vehicle_id = vehicle.id;
    license_plate = vehicle.license_plate;
    model = vehicle.model;
    status = vehicle.status;
    station_id = vehicle.station_id;
    recorded_at = state.recorded_at;
    latitude = state.latitude;
    longitude = state.longitude;
    fuel_level = state.fuel_level;
    is_locked = state.is_locked;
    source = state.source;
  }

  abbrev pub add_position :
      VehiclePositionRead F → Option (FleetPositionsRead F) → Option (FleetPositionsRead F)
  add_position p none = none
  add_position p (some fleet) = some (record fleet { positions = p ∷ fleet.positions })

  abbrev pub add_missing : ℕ → Option (FleetPositionsRead F) → Option (FleetPositionsRead F)
  add_missing v none = none
  add_missing v (some fleet) =
      some (record fleet { without_telemetry = v ∷ fleet.without_telemetry })

  abbrev pub add_cached :
      Vehicle
      → Option (VehicleStateRead F)
      → Option (FleetPositionsRead F)
      → Option (FleetPositionsRead F)
  add_cached vehicle none rest = none
  add_cached vehicle (some state) rest = add_position (position vehicle state) rest

  -- One round of the loop: the cache first, then the readings; `none` is a `ValueError`.
  abbrev pub place :
      Vehicle
      → Bool
      → Option CachedState
      → Option (TelemetryMessage F)
      → Option (FleetPositionsRead F)
      → Option (FleetPositionsRead F)
  place vehicle degraded (some cached) reading rest =
      add_cached vehicle (from_cache F codec vehicle.id cached) rest
  place vehicle degraded none (some reading) rest =
      add_position (position vehicle (from_reading F codec reading degraded)) rest
  place vehicle degraded none none rest = add_missing vehicle.id rest

  unfoldable pub place_all :
      Bool
      → (ℕ → Option CachedState)
      → List (TelemetryMessage F)
      → List Vehicle
      → Option (FleetPositionsRead F)
  unfolding from_cache
  place_all degraded cached readings [] =
      some (record { positions = []; without_telemetry = []; degraded = degraded })
  place_all degraded cached readings (v ∷ vs) =
      place v degraded (cached v.id) (latest_reading F codec v.id readings)
        (place_all degraded cached readings vs)

  -- `redis_up`: whether the pipeline of reads goes through. A connection error or a timeout leaves
  -- the cache empty; other errors of Redis go through and are left aside. Without vehicles nothing
  -- is read.
  unfoldable pub get_fleet_positions :
      Bool
      → (String → Option CachedState)
      → List (TelemetryMessage F)
      → List Vehicle
      → Option (FleetPositionsRead F)
  unfolding place_all
  get_fleet_positions redis_up redis readings [] =
      some (record { positions = []; without_telemetry = []; degraded = false })
  get_fleet_positions true redis readings (v ∷ vs) =
      place_all false (λ k. redis (vehicle_state_key F codec k)) readings
        (order_by (λ x. x.id) (v ∷ vs))
  get_fleet_positions false redis readings (v ∷ vs) =
      place_all true (λ k. none) readings (order_by (λ x. x.id) (v ∷ vs))
