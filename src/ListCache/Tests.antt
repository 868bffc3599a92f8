-- ===== src/ListCache/Tests.antt =====
-- The theorems on cached lists at a list that changed a moment ago.
use fleet_management.Prelude.{
  ℕ, String, refl, true, Option, none, some, arith, ltb, if◌then◌else◌, str_eq,
}
use fleet_management.ListCache.{Entry, vehicles_list_key, read_through_json}
use fleet_management.ListCache.Staleness.{WasCurrent, IsDated, read_through_json-WasCurrent}

-- The list was empty until the moment 100.
abbrev shown : ℕ → String
shown t = if ltb t 100 then "[]" else "[1]"

abbrev old_list : String → Option Entry
old_list key =
    if str_eq key vehicles_list_key
    then some (record { payload = "[]"; expires_at = 120 })
    else none

old_list-IsDated : IsDated shown 5 30 110 (old_list vehicles_list_key)
old_list-IsDated = (90, refl, omega arith, omega arith)

read_through_json-WasCurrent_example :
    let (text, after) =
      read_through_json true true true 30 110 112 vehicles_list_key (shown 110) old_list in
    WasCurrent shown 5 30 110 110 text × IsDated shown 5 30 110 (after vehicles_list_key)
read_through_json-WasCurrent_example =
    read_through_json-WasCurrent shown 5 30 true true true 110 112 vehicles_list_key old_list
      (omega arith) old_list-IsDated
