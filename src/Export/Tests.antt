-- ===== src/Export/Tests.antt =====
-- The theorem on exports at an account that was erased.
use fleet_management.Prelude.{refl}
use fleet_management.Samples.{clock, small_fleet, petro}
use fleet_management.Erasure.{anonymize_user}
use fleet_management.Export.{build_export}
use fleet_management.Export.Erased.{IsBare, build_export-anonymize_user}
use fleet_management.Erasure.Samples.{random, done_actions, done, petro_erased}

build_export-anonymize_user_example :
    IsBare (build_export 200 petro (anonymize_user (clock 100) random 1 2 "c-1" small_fleet).1)
build_export-anonymize_user_example =
    build_export-anonymize_user (clock 100) random 2 "c-1" small_fleet done done_actions 200 petro
      petro_erased refl
