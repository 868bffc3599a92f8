-- ===== src/Telemetry.antt =====
-- The telemetry pipeline: telemetry/schemas.py, telemetry/processor.py and `handle_message` of
-- telemetry/worker.py, all of src/fleet_management, with the row of models/telemetry.py. Floats
-- are a parameter, and so is what turns values into texts and back.
pub mod Cache
pub mod Delivery
pub mod Contract
pub mod Outcomes
pub mod Redelivery
pub mod Worker
pub mod Samples
mod Tests
use fleet_management.Prelude.{
  ℕ, zero, String, Bool, true, false, not, ◌&&◌, Option, none, some, List, [], ◌∷◌, ◌++◌, ◌≡◌,
  find?, is_some, ltb, leb, ◌==◌, if◌then◌else◌, str_eq,
}
use fleet_management.Models.Fleet.{Vehicle}

-- Python's floats, as far as the code uses them: comparison with the bounds of the message.
pub record Floats : Type 1 where
  pub Float : Type 0
  pub float_leb : Float → Float → Bool
  pub minus_90 : Float
  pub plus_90 : Float
  pub minus_180 : Float
  pub plus_180 : Float
  pub float_0 : Float
  pub float_100 : Float

-- `str` of an integer, `isoformat` and `fromisoformat`, and the texts of floats that Redis keeps.
pub record Codec (F : Floats) : Type 0 where
  pub print_int : ℕ → String
  pub print_time : ℕ → String
  pub parse_time : String → Option ℕ
  pub print_float : F.Float → String
  pub parse_float : String → Option F.Float
  pub print_int_injective : (m n : ℕ) → print_int m ≡ print_int n → m ≡ n
  pub parse-print_time : (t : ℕ) → parse_time (print_time t) ≡ some t
  pub parse-print_float : (x : F.Float) → parse_float (print_float x) ≡ some x

-- `TelemetryMessage`, and the columns of `TelemetryReading` but its own id.
pub record TelemetryMessage (F : Floats) : Type 0 where
  pub vehicle_id : ℕ
  pub recorded_at : ℕ
  pub latitude : F.Float
  pub longitude : F.Float
  pub fuel_level : F.Float
  pub is_locked : Bool

-- The hash `vehicle:{id}:state`.
pub record CachedState : Type 0 where
  pub recorded_at : String
  pub latitude : String
  pub longitude : String
  pub fuel_level : String
  pub is_locked : String

-- What the worker writes to: the readings, and Redis as a map from keys to hashes.
pub record Pipeline (F : Floats) : Type 0 where
  pub readings : List (TelemetryMessage F)
  pub redis : String → Option CachedState

-- How `save_reading` ends: with the readings and whether a row was added, with `NotFoundError`, or
-- with an error of the database driver.
pub data Saving (F : Floats) : Type 0 where
  saved : Bool × List (TelemetryMessage F) → Saving F
  no_vehicle : Saving F
  driver_error : Saving F

-- the numbers of an INTEGER column, as far as they are not negative
abbrev pub fits_integer : ℕ → Bool
fits_integer n = leb n 2147483647

-- How a message is answered: acknowledged, rejected for good, or returned to the queue.
pub data Disposition : Type 0 where
  ack reject nack : Disposition

module _ (F : Floats) (codec : Codec F) where
  -- The bounds of the fields (`gt`, `ge`, `le`).
  unfoldable pub within_bounds : TelemetryMessage F → Bool
  within_bounds m =
      ltb 0 m.vehicle_id
      && F.float_leb F.minus_90 m.latitude
      && F.float_leb m.latitude F.plus_90
      && F.float_leb F.minus_180 m.longitude
      && F.float_leb m.longitude F.plus_180
      && F.float_leb F.float_0 m.fuel_level
      && F.float_leb m.fuel_level F.float_100

  -- `model_validate_json` of a body, which the JSON reader gives as `none` or as typed fields.
  unfoldable pub validate : Option (TelemetryMessage F) → Option (TelemetryMessage F)
  validate none = none
  validate (some m) = if within_bounds m then some m else none

  unfoldable pub vehicle_state_key : ℕ → String
  vehicle_state_key vehicle_id =
      Prim.Native.String.◌++◌ "vehicle:"
        (Prim.Native.String.◌++◌ (codec.print_int vehicle_id) ":state")

  -- `uq_telemetry_vehicle_recorded_at`
  abbrev pub same_reading : TelemetryMessage F → TelemetryMessage F → Bool
  same_reading m r = r.vehicle_id == m.vehicle_id && r.recorded_at == m.recorded_at

  -- `insert ... on conflict do nothing`: the readings, and whether a row was added.
  unfoldable pub insert_reading :
      TelemetryMessage F → List (TelemetryMessage F) → Bool × List (TelemetryMessage F)
  insert_reading m readings =
      if is_some (find? (same_reading m) readings)
      then (false, readings)
      else (true, readings ++ m ∷ [])

  -- The driver raises for a vehicle id that an INTEGER column cannot hold.
  unfoldable pub save_reading :
      List Vehicle → TelemetryMessage F → List (TelemetryMessage F) → Saving F
  unfolding insert_reading
  save_reading vehicles m readings =
      if fits_integer m.vehicle_id
      then if is_some (find? (λ v. v.id == m.vehicle_id) vehicles)
        then saved (insert_reading m readings)
        else no_vehicle
      else driver_error

  abbrev pub cached_state : TelemetryMessage F → CachedState
  cached_state m = record {
    recorded_at = codec.print_time m.recorded_at;
    latitude = codec.print_float m.latitude;
    longitude = codec.print_float m.longitude;
    fuel_level = codec.print_float m.fuel_level;
    is_locked = if m.is_locked then "1" else "0";
  }

  abbrev pub hset :
      String → CachedState → (String → Option CachedState) → String → Option CachedState
  hset key state redis k = if str_eq k key then some state else redis k

  -- the test on `hget(key, "recorded_at")`; `none` is the `ValueError` of a text that is no moment
  abbrev pub newer_than : ℕ → Option ℕ → Option Bool
  newer_than recorded_at none = none
  newer_than recorded_at (some cached_at) = some (not (leb recorded_at cached_at))

  abbrev pub is_newer : ℕ → Option CachedState → Option Bool
  is_newer recorded_at none = some true
  is_newer recorded_at (some cached) = newer_than recorded_at (codec.parse_time cached.recorded_at)

  abbrev pub store_if :
      TelemetryMessage F
      → (String → Option CachedState)
      → Option Bool
      → Option (Bool × (String → Option CachedState))
  store_if m redis none = none
  store_if m redis (some false) = some (false, redis)
  store_if m redis (some true) =
      some (true, hset (vehicle_state_key m.vehicle_id) (cached_state m) redis)

  unfoldable pub update_vehicle_state :
      TelemetryMessage F
      → (String → Option CachedState)
      → Option (Bool × (String → Option CachedState))
  update_vehicle_state m redis =
      store_if m redis (is_newer m.recorded_at (redis (vehicle_state_key m.vehicle_id)))

  abbrev pub cache_answer :
      Pipeline F → Option (Bool × (String → Option CachedState)) → Disposition × Pipeline F
  cache_answer s none = (nack, s)
  cache_answer s (some (_, redis)) = (ack, record s { redis = redis })

  abbrev pub update_cache : Bool → TelemetryMessage F → Pipeline F → Disposition × Pipeline F
  update_cache false m s = (nack, s)
  update_cache true m s = cache_answer s (update_vehicle_state m s.redis)

  abbrev pub after_save :
      Bool → TelemetryMessage F → Pipeline F → Saving F → Disposition × Pipeline F
  after_save redis_up m s no_vehicle = (reject, s)
  after_save redis_up m s driver_error = (nack, s)
  after_save redis_up m s (saved (_, readings)) =
      update_cache redis_up m (record s { readings = readings })

  -- `db_up` and `redis_up`: whether the database and Redis answer during this delivery.
  abbrev pub process :
      Bool → Bool → List Vehicle → TelemetryMessage F → Pipeline F → Disposition × Pipeline F
  process db_up redis_up vehicles m s =
      if db_up then after_save redis_up m s (save_reading vehicles m s.readings) else (nack, s)

  abbrev pub process_valid :
      Bool
      → Bool
      → List Vehicle
      → Pipeline F
      → Option (TelemetryMessage F)
      → Disposition × Pipeline F
  process_valid db_up redis_up vehicles s none = (reject, s)
  process_valid db_up redis_up vehicles s (some m) = process db_up redis_up vehicles m s

  unfoldable pub handle_message :
      Bool
      → Bool
      → List Vehicle
      → Option (TelemetryMessage F)
      → Pipeline F
      → Disposition × Pipeline F
  handle_message db_up redis_up vehicles body s =
      process_valid db_up redis_up vehicles s (validate body)
