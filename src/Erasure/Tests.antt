-- ===== src/Erasure/Tests.antt =====
-- The theorems on the right to erasure at a small fleet.
use fleet_management.Prelude.{refl, arith}
use fleet_management.Samples.{clock, small_fleet}
use fleet_management.Erasure.{anonymize_user}
use fleet_management.Erasure.Complete.{IsErased, anonymize_user-IsErased}
use fleet_management.Erasure.Others.{Untouched, anonymize_user-Untouched}
use fleet_management.Erasure.Samples.{random, done_actions, done, petro_erased}

anonymize_user-IsErased_example :
    IsErased 1 (anonymize_user (clock 100) random 1 2 "c-1" small_fleet).1
anonymize_user-IsErased_example =
    anonymize_user-IsErased (clock 100) random 1 2 "c-1" small_fleet done done_actions petro_erased
      refl

anonymize_user-Untouched_example :
    Untouched 2 small_fleet (anonymize_user (clock 100) random 1 2 "c-1" small_fleet).1
anonymize_user-Untouched_example =
    anonymize_user-Untouched (clock 100) random 1 2 2 "c-1" small_fleet (λ e. omega (arith, e))
