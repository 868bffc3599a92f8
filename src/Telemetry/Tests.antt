-- ===== src/Telemetry/Tests.antt =====
-- The theorems on the pipeline at a few messages.
use fleet_management.Prelude.{
  ℕ, ◌≡◌, ◌≢◌, ◌⊎◌, none, some, true, false, [], ◌∷◌, ◌++◌, ltb, if◌then◌else◌,
}
use fleet_management.Resilience.{Attempt, success, transient}
use fleet_management.Samples.{free_car}
use fleet_management.Telemetry.{Pipeline, nack, handle_message}
use fleet_management.Telemetry.Samples.{coarse, unary_codec, reading, empty_cache}
use fleet_management.Telemetry.Cache.{
  IsReadable, cached_time, newest, update_each, update_each-newest,
}
use fleet_management.Telemetry.Contract.{Handled}
use fleet_management.Telemetry.Outcomes.{handle_outcome}
use fleet_management.Telemetry.Redelivery.{IsUnstorable, deliver, deliver_settles}
use fleet_management.Telemetry.Worker.{Connects, connect_rabbitmq, connect_rabbitmq_outcome}

nothing_cached : IsReadable coarse unary_codec empty_cache
nothing_cached key c e = absurd (cc e)

abbrev start : Pipeline coarse
start = record { readings = []; redis = empty_cache }

update_each-newest_example :
    cached_time coarse unary_codec 1
      (update_each coarse unary_codec (reading 1 9 ∷ reading 1 4 ∷ reading 2 12 ∷ []) empty_cache)
    ≡ newest coarse unary_codec 1 none (reading 1 9 ∷ reading 1 4 ∷ reading 2 12 ∷ [])
update_each-newest_example =
    update_each-newest coarse unary_codec 1 (reading 1 9 ∷ reading 1 4 ∷ reading 2 12 ∷ [])
      empty_cache nothing_cached

handle_outcome_example :
    Handled coarse unary_codec
      (free_car ∷ [])
      true
      false
      (some (reading 1 9))
      start
      (handle_message coarse unary_codec true false (free_car ∷ []) (some (reading 1 9)) start)
handle_outcome_example =
    handle_outcome coarse unary_codec (free_car ∷ []) true false (some (reading 1 9)) start

deliver_settles_example :
    (IsUnstorable coarse unary_codec (free_car ∷ []) (some (reading 1 9))
      ⊎ ((deliver coarse unary_codec
            (free_car ∷ [])
            ((false, true) ∷ (true, false) ∷ [] ++ (true, true) ∷ [])
            (some (reading 1 9))
            start).0
          ≢ nack))
    × (deliver coarse unary_codec
          (free_car ∷ [])
          ((false, true) ∷ (true, false) ∷ [] ++ (true, true) ∷ [])
          (some (reading 1 9))
          start
        ≡ handle_message coarse unary_codec true true (free_car ∷ []) (some (reading 1 9)) start)
deliver_settles_example =
    deliver_settles coarse unary_codec (free_car ∷ []) ((false, true) ∷ (true, false) ∷ []) []
      (some (reading 1 9)) start nothing_cached

-- RabbitMQ answers at the third attempt.
abbrev third : ℕ → Attempt ℕ ℕ
third n = if ltb n 3 then transient n else success n

connect_rabbitmq_outcome_example : Connects third 10 1 (connect_rabbitmq third)
connect_rabbitmq_outcome_example = connect_rabbitmq_outcome third
