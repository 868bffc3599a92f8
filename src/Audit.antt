-- ===== src/Audit.antt =====
-- The audit trail and the activity history: services/audit_service.py of src/fleet_management.
-- The column default of a moment (`func.now()`) is the call's first clock reading.
use Prim.Native.String.{[], ◌∷◌}
use fleet_management.Prelude.{ℕ, zero, suc, String, Option, none, some, List, ◌++◌}
use fleet_management.Models.Privacy.{AuditEvent, UserActivity}
use fleet_management.Session.{Db, audit_events, user_activity, Ambient, Action, commit}

abbrev pub audit_event : Ambient → String → ℕ → ℕ → String → String → AuditEvent
audit_event env event_type actor_id subject_id result correlation_id = record {
  id = env.new_id audit_events 0;
  event_type = event_type;
  actor_id = some actor_id;
  subject_id = some subject_id;
  result = result;
  correlation_id = correlation_id;
  occurred_at = env.now 0;
}

-- What is staged in the caller's transaction.
abbrev pub add_audit_event : AuditEvent → Db → Db
add_audit_event event db = record db { audit_events = db.audit_events ++ List.◌∷◌ event List.[] }

unfoldable pub record_audit_event : Ambient → String → ℕ → ℕ → String → String → Action (Unit {0})
record_audit_event env event_type actor_id subject_id result correlation_id =
    commit (add_audit_event (audit_event env event_type actor_id subject_id result correlation_id))

-- `text[:n]`
abbrev pub take : ℕ → String → String
take zero s = []
take (suc n) [] = []
take (suc n) (c ∷ s) = c ∷ take n s

-- `user_agent[:255] if user_agent else None`: an empty text is dropped too.
abbrev pub cut_user_agent : Option String → Option String
cut_user_agent none = none
cut_user_agent (some []) = none
cut_user_agent (some (c ∷ s)) = some (take 255 (c ∷ s))

abbrev pub activity : Ambient → ℕ → String → Option String → Option String → UserActivity
activity env user_id action ip_address user_agent = record {
  id = env.new_id user_activity 0;
  user_id = user_id;
  action = action;
  occurred_at = env.now 0;
  ip_address = ip_address;
  user_agent = cut_user_agent user_agent;
}

unfoldable pub record_activity :
    Ambient → ℕ → String → Option String → Option String → Action (Unit {0})
record_activity env user_id action ip_address user_agent = commit λ db. record db {
  user_activity =
      db.user_activity ++ List.◌∷◌ (activity env user_id action ip_address user_agent) List.[];
}
