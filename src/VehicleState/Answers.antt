-- ===== src/VehicleState/Answers.antt =====
-- What `get_vehicle_state` of services/vehicle_state_service.py answers.
use fleet_management.Prelude.{
  ℕ, ◌≤◌, ◌≡◌, refl, Bool, true, false, Option, none, some, List, [], ◌∷◌, All, ltb, ◌==◌, str_eq,
  if◌then◌else◌, Bool-cases, inl, inr, arith,
}
use fleet_management.Telemetry.{Floats, Codec, TelemetryMessage, cached_state}
use fleet_management.VehicleState.{
  VehicleStateRead, Answer, answer, failure, database, cache, from_cache, from_reading,
  latest_reading, newer_of, unavailable,
}

locked_text : (b : Bool) → str_eq (if b then "1" else "0") "1" ≡ b
locked_text true = refl
locked_text false = refl

module _ (F : Floats) (codec : Codec F) where
  -- The state that is read back from the cache is that of the message which was written.
  pub from_cache-cached_state :
      (m : TelemetryMessage F)
      → from_cache F codec m.vehicle_id (cached_state F codec m)
        ≡ some (record (from_reading F codec m false) { source = cache })
  unfolding from_cache
  from_cache-cached_state m = rw (codec.parse-print_time m.recorded_at) (
      rw (codec.parse-print_float m.latitude) (
        rw (codec.parse-print_float m.longitude)
          (rw (codec.parse-print_float m.fuel_level) (rw (locked_text m.is_locked) refl))))

  -- The reading that stands for a vehicle is one of its own, and none of its readings is later.
  pub data IsLatest (v : ℕ) (rs : List (TelemetryMessage F))
      : Option (TelemetryMessage F) → Type 0 where
    nothing : All (λ (r : TelemetryMessage F). (r.vehicle_id == v) ≡ false) rs → IsLatest v rs none
    latest :
        (r : TelemetryMessage F)
        → r.vehicle_id ≡ v
        → All (λ (q : TelemetryMessage F). q.vehicle_id ≡ v → q.recorded_at ≤ r.recorded_at) rs
        → IsLatest v rs (some r)

  earlier :
      (v : ℕ) (q r : TelemetryMessage F) (rs : List (TelemetryMessage F))
      → q.recorded_at ≤ r.recorded_at
      → All (λ (x : TelemetryMessage F). x.vehicle_id ≡ v → x.recorded_at ≤ q.recorded_at) rs
      → All (λ (x : TelemetryMessage F). x.vehicle_id ≡ v → x.recorded_at ≤ r.recorded_at) rs
  earlier v q r [] le h = tt
  earlier v q r (x ∷ rs) le h = ((λ e. omega (arith, h.0 e)), earlier v q r rs le h.1)

  none_of :
      (v : ℕ) (r : TelemetryMessage F) (rs : List (TelemetryMessage F))
      → All (λ (x : TelemetryMessage F). (x.vehicle_id == v) ≡ false) rs
      → All (λ (x : TelemetryMessage F). x.vehicle_id ≡ v → x.recorded_at ≤ r.recorded_at) rs
  none_of v r [] h = tt
  none_of v r (x ∷ rs) h = ((λ e. ground (arith, h.0)), none_of v r rs h.1)

  newer_step :
      (v : ℕ) (r : TelemetryMessage F) (rs : List (TelemetryMessage F))
      (rest : Option (TelemetryMessage F))
      → r.vehicle_id ≡ v
      → IsLatest v rs rest
      → IsLatest v (r ∷ rs) (newer_of F codec r rest)
  newer_step v r rs rest own (nothing h) = latest r own ((λ _. omega arith), none_of v r rs h)
  newer_step v r rs rest own (latest q mine h) =
      elim (Bool-cases (ltb r.recorded_at q.recorded_at)) [
        | inl older ↦ rw older (latest q mine ((λ _. ground (arith, older)), h))
        | inr newer ↦
            let le : q.recorded_at ≤ r.recorded_at = ground (arith, newer) in
            rw newer (latest r own ((λ _. omega arith), earlier v q r rs le h))
      ]

  -- The query for the last reading of a vehicle finds one of its own that no other of its readings
  -- is later than, and finds none only where the vehicle has no reading.
  pub latest_reading-IsLatest :
      (v : ℕ) (rs : List (TelemetryMessage F)) → IsLatest v rs (latest_reading F codec v rs)
  unfolding latest_reading
  latest_reading-IsLatest v [] = nothing tt
  latest_reading-IsLatest v (r ∷ rs) = elim (Bool-cases (r.vehicle_id == v)) [
    | inl own ↦ rw own (newer_step v r rs _ (ground (arith, own)) (latest_reading-IsLatest v rs))
    | inr other ↦ rw other (passed_by other (latest_reading-IsLatest v rs))
  ]
    where
      passed_by :
          {o : Option (TelemetryMessage F)}
          → (r.vehicle_id == v) ≡ false
          → IsLatest v rs o
          → IsLatest v (r ∷ rs) o
      passed_by other (nothing h) = nothing (other, h)
      passed_by other (latest q mine h) = latest q mine ((λ e. ground (arith, other)), h)

  -- What a vehicle's query gives in place of the cache: its last reading, marked as degraded, or
  -- `DependencyUnavailableError` where it has no reading.
  pub data LastKnown {E : Type 0} (v : ℕ) (rs : List (TelemetryMessage F))
      : Answer E (VehicleStateRead F) → Type 0 where
    not_available : IsLatest v rs none → LastKnown v rs (failure (unavailable v))
    last_reading :
        (r : TelemetryMessage F)
        → IsLatest v rs (some r)
        → LastKnown v rs (
            answer (record {
              vehicle_id = v;
              recorded_at = r.recorded_at;
              latitude = r.latitude;
              longitude = r.longitude;
              fuel_level = r.fuel_level;
              is_locked = r.is_locked;
              source = database;
              degraded = true;
            }))
