-- ===== src/Telemetry/Contract.antt =====
-- What a delivery to `handle_message` of telemetry/worker.py may do, told by what is stored then.
use fleet_management.Prelude.{
  ℕ, ◌≤◌, ◌<◌, String, ◌≡◌, ◌⊎◌, Bool, true, false, ◌&&◌, Option, none, some, List, [], ◌∷◌, ◌++◌,
  find?, is_some, ◌==◌, str_eq, if◌then◌else◌,
}
use fleet_management.Models.Fleet.{Vehicle}
use fleet_management.Telemetry.{
  Floats, Codec, TelemetryMessage, CachedState, Pipeline, Disposition, vehicle_state_key, ack,
  reject, nack,
}
use fleet_management.Telemetry.Delivery.{IsKnown}

module _ (F : Floats) (codec : Codec F) where
  pub record InBounds (m : TelemetryMessage F) : Type 0 where
    pub some_vehicle : 1 ≤ m.vehicle_id
    pub from_south : F.float_leb F.minus_90 m.latitude ≡ true
    pub to_north : F.float_leb m.latitude F.plus_90 ≡ true
    pub from_west : F.float_leb F.minus_180 m.longitude ≡ true
    pub to_east : F.float_leb m.longitude F.plus_180 ≡ true
    pub not_below_empty : F.float_leb F.float_0 m.fuel_level ≡ true
    pub not_above_full : F.float_leb m.fuel_level F.float_100 ≡ true

  -- The body is the JSON of a message whose fields are in their bounds.
  abbrev pub IsValid : Option (TelemetryMessage F) → TelemetryMessage F → Type 0
  IsValid body m = (body ≡ some m) × InBounds m

  abbrev pub has_reading : TelemetryMessage F → List (TelemetryMessage F) → Bool
  has_reading m rs =
      is_some (find? (λ r. r.vehicle_id == m.vehicle_id && r.recorded_at == m.recorded_at) rs)

  -- The readings after `m` was saved: there is one of its vehicle and moment, which is new only
  -- where there was none, and nothing else was changed.
  pub record IsSaved (m : TelemetryMessage F) (before after : List (TelemetryMessage F))
      : Type 0 where
    pub there : has_reading m after ≡ true
    pub nothing_else : (after ≡ before) ⊎ (after ≡ before ++ m ∷ [])
    pub once : has_reading m before ≡ true → after ≡ before

  -- The cache after `m` was looked at: the state of its vehicle is not older, and is either what it
  -- was or that of `m`; the states of other keys stay.
  pub record IsUpToDate (m : TelemetryMessage F) (before after : String → Option CachedState)
      : Type 0 where
    pub state : CachedState
    pub moment : ℕ
    pub cached : after (vehicle_state_key F codec m.vehicle_id) ≡ some state
    pub readable : codec.parse_time state.recorded_at ≡ some moment
    pub not_older : m.recorded_at ≤ moment
    pub kept_or_written :
        (after ≡ before)
        ⊎ (state ≡ record {
          recorded_at = codec.print_time m.recorded_at;
          latitude = codec.print_float m.latitude;
          longitude = codec.print_float m.longitude;
          fuel_level = codec.print_float m.fuel_level;
          is_locked = if m.is_locked then "1" else "0";
        })
    pub others :
        (key : String)
        → str_eq key (vehicle_state_key F codec m.vehicle_id) ≡ false
        → after key ≡ before key

  -- The cached moment of the vehicle is a text that is no moment.
  abbrev pub IsUnreadable : TelemetryMessage F → (String → Option CachedState) → Type 0
  IsUnreadable m redis =
      (c : CachedState) × (redis (vehicle_state_key F codec m.vehicle_id) ≡ some c)
      × (codec.parse_time c.recorded_at ≡ none)

  -- The ways in which a delivery can end, by its answer and what stands then.
  pub data Handled (vehicles : List Vehicle) (db_up redis_up : Bool)
      (body : Option (TelemetryMessage F)) (s : Pipeline F)
      : Disposition × Pipeline F → Type 0 where
    invalid :
        ((m : TelemetryMessage F) → ¬ IsValid body m)
        → Handled vehicles db_up redis_up body s (reject, s)
    unknown :
        (m : TelemetryMessage F)
        → IsValid body m
        → db_up ≡ true
        → m.vehicle_id ≤ 2147483647
        → is_some (find? (λ v. v.id == m.vehicle_id) vehicles) ≡ false
        → Handled vehicles db_up redis_up body s (reject, s)
    db_failed :
        (m : TelemetryMessage F)
        → IsValid body m
        → db_up ≡ false
        → Handled vehicles db_up redis_up body s (nack, s)
    out_of_range :
        (m : TelemetryMessage F)
        → IsValid body m
        → 2147483647 < m.vehicle_id
        → Handled vehicles db_up redis_up body s (nack, s)
    saved_only :
        (m : TelemetryMessage F) (readings : List (TelemetryMessage F))
        → IsValid body m
        → m.vehicle_id ≤ 2147483647
        → IsKnown F codec vehicles m
        → db_up ≡ true
        → (redis_up ≡ false) ⊎ IsUnreadable m s.redis
        → IsSaved m s.readings readings
        → Handled vehicles db_up redis_up body s (nack, record s { readings = readings })
    stored :
        (m : TelemetryMessage F) (readings : List (TelemetryMessage F))
        (redis : String → Option CachedState)
        → IsValid body m
        → m.vehicle_id ≤ 2147483647
        → IsKnown F codec vehicles m
        → db_up ≡ true
        → redis_up ≡ true
        → IsSaved m s.readings readings
        → IsUpToDate m s.redis redis
        → Handled vehicles db_up redis_up body s
            (ack, record { readings = readings; redis = redis })
