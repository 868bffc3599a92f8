-- ===== src/VehicleState.antt =====
-- The current state of a vehicle and the positions of the fleet:
-- services/vehicle_state_service.py of src/fleet_management.
pub mod Answers
pub mod Fleet
pub mod Positions
mod Tests
use fleet_management.Prelude.{
  ℕ, String, Bool, true, false, Option, none, some, List, [], ◌∷◌, order_by, ltb, ◌==◌,
  if◌then◌else◌, str_eq,
}
use fleet_management.Models.Fleet.{Vehicle, VehicleStatus}
use fleet_management.Resilience.{
  RetryPolicy, Attempt, success, transient, permanent, Retried, returned, exhausted, propagated,
  unreachable, call_with_retry,
}
use fleet_management.Telemetry.{Floats, Codec, TelemetryMessage, CachedState, vehicle_state_key}

pub data Source : Type 0 where
  cache database : Source

pub record VehicleStateRead (F : Floats) : Type 0 where
  pub vehicle_id : ℕ
  pub recorded_at : ℕ
  pub latitude : F.Float
  pub longitude : F.Float
  pub fuel_level : F.Float
  pub is_locked : Bool
  pub source : Source
  pub degraded : Bool

-- How a query can fail: an error of Redis that goes through, `DependencyUnavailableError`,
-- `NotFoundError`, a `ValueError` on a text of the cache, or the `AssertionError` of the retries.
pub data StateError (E : Type 0) : Type 0 where
  redis_error : E → StateError E
  unavailable : ℕ → StateError E
  no_telemetry : ℕ → StateError E
  value_error : StateError E
  assertion_error : StateError E

pub data Answer (E A : Type 0) : Type 0 where
  answer : A → Answer E A
  failure : StateError E → Answer E A

pub record VehiclePositionRead (F : Floats) : Type 0 where
  pub vehicle_id : ℕ
  pub license_plate : String
  pub model : String
  pub status : VehicleStatus
  pub station_id : ℕ
  pub recorded_at : ℕ
  pub latitude : F.Float
  pub longitude : F.Float
  pub fuel_level : F.Float
  pub is_locked : Bool
  pub source : Source

pub record FleetPositionsRead (F : Floats) : Type 0 where
  pub positions : List (VehiclePositionRead F)
  pub without_telemetry : List ℕ
  pub degraded : Bool

module _ (F : Floats) (codec : Codec F) where
  -- the state from the four texts, once each is read
  abbrev pub state_of_texts :
      ℕ
      → Bool
      → Option ℕ
      → Option F.Float
      → Option F.Float
      → Option F.Float
      → Option (VehicleStateRead F)
  state_of_texts vehicle_id is_locked (some recorded_at) (some latitude) (some longitude)
        (some fuel_level) =
      some (record {
        vehicle_id = vehicle_id;
        recorded_at = recorded_at;
        latitude = latitude;
        longitude = longitude;
        fuel_level = fuel_level;
        is_locked = is_locked;
        source = cache;
        degraded = false;
      })
  state_of_texts vehicle_id is_locked _ _ _ _ = none

  -- `none` is the `ValueError` of a text that cannot be read.
  unfoldable pub from_cache : ℕ → CachedState → Option (VehicleStateRead F)
  from_cache vehicle_id cached =
      state_of_texts vehicle_id (str_eq cached.is_locked "1") (codec.parse_time cached.recorded_at)
        (codec.parse_float cached.latitude) (codec.parse_float cached.longitude)
        (codec.parse_float cached.fuel_level)

  abbrev pub from_reading : TelemetryMessage F → Bool → VehicleStateRead F
  from_reading r degraded = record {
    vehicle_id = r.vehicle_id;
    recorded_at = r.recorded_at;
    latitude = r.latitude;
    longitude = r.longitude;
    fuel_level = r.fuel_level;
    is_locked = r.is_locked;
    source = database;
    degraded = degraded;
  }

  -- `order_by(recorded_at.desc()).limit(1)` among the readings of a vehicle
  abbrev pub newer_of :
      TelemetryMessage F → Option (TelemetryMessage F) → Option (TelemetryMessage F)
  newer_of r none = some r
  newer_of r (some q) = if ltb r.recorded_at q.recorded_at then some q else some r

  unfoldable pub latest_reading : ℕ → List (TelemetryMessage F) → Option (TelemetryMessage F)
  latest_reading v [] = none
  latest_reading v (r ∷ rs) =
      let rest = latest_reading v rs in if r.vehicle_id == v then newer_of r rest else rest

  abbrev pub answer_cached :
      {E : Type 0} → Option (VehicleStateRead F) → Answer E (VehicleStateRead F)
  answer_cached none = failure value_error
  answer_cached (some state) = answer state

  abbrev pub answer_reading :
      {E : Type 0}
      → StateError E
      → Bool
      → Option (TelemetryMessage F)
      → Answer E (VehicleStateRead F)
  answer_reading missing degraded none = failure missing
  answer_reading missing degraded (some r) = answer (from_reading r degraded)

  -- What is served once Redis has answered: its state, or the last reading where it has none.
  abbrev pub serve :
      {E : Type 0}
      → List (TelemetryMessage F)
      → ℕ
      → Option CachedState
      → Answer E (VehicleStateRead F)
  serve readings vehicle_id (some cached) = answer_cached (from_cache vehicle_id cached)
  serve readings vehicle_id none =
      answer_reading (no_telemetry vehicle_id) false (latest_reading vehicle_id readings)

  -- What is served with a policy, by how the retried read ended.
  abbrev pub serve_retried :
      {E : Type 0}
      → List (TelemetryMessage F)
      → ℕ
      → Retried (Option CachedState) E
      → Answer E (VehicleStateRead F)
  serve_retried readings vehicle_id (returned cached) = serve readings vehicle_id cached
  serve_retried readings vehicle_id (exhausted attempts e) =
      answer_reading (unavailable vehicle_id) true (latest_reading vehicle_id readings)
  serve_retried readings vehicle_id (propagated e) = failure (redis_error e)
  serve_retried readings vehicle_id unreachable = failure assertion_error

  abbrev pub serve_once :
      {E : Type 0}
      → List (TelemetryMessage F)
      → ℕ
      → Attempt (Option CachedState) E
      → Answer E (VehicleStateRead F)
  serve_once readings vehicle_id (success cached) = serve readings vehicle_id cached
  serve_once readings vehicle_id (transient e) = failure (redis_error e)
  serve_once readings vehicle_id (permanent e) = failure (redis_error e)

  -- `hgetall n` is how long the n-th read of the key takes, and how it ends.
  unfoldable pub get_vehicle_state :
      {E : Type 0}
      → (timeout_error : E) → (scale : ℕ) → (rand overrun : ℕ → ℕ)
      → (hgetall : ℕ → ℕ × Attempt (Option CachedState) E) → List (TelemetryMessage F)
      → ℕ
      → Option RetryPolicy
      → Answer E (VehicleStateRead F)
  get_vehicle_state timeout_error scale rand overrun hgetall readings vehicle_id none =
      serve_once readings vehicle_id (hgetall 1).1
  get_vehicle_state timeout_error scale rand overrun hgetall readings vehicle_id (some policy) =
      serve_retried readings vehicle_id
        (call_with_retry timeout_error policy scale rand overrun hgetall).0
