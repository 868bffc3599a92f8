-- ===== src/PrivacyRoutes/Access.antt =====
-- Who may act on an account (`subject_access` of src/fleet_management/api/privacy.py), for whatever
-- handler stands behind it.
use fleet_management.Prelude.{ℕ, String, ◌≡◌, ◌≢◌, arith}
use fleet_management.Models.Account.{User, UserRole}
use fleet_management.Session.{Db, Ambient, Entity, not_found, Result, err}
use fleet_management.Audit.{audit_event, add_audit_event}
use fleet_management.PrivacyRoutes.{Handler, subject_access, route}

-- A route that refuses: its answer, with one entry of the audit trail.
abbrev pub refused_access :
    (A : Type 0) → Ambient → String → String → ℕ → User → String → Db → Result A × Db
refused_access A env event_type correlation_id user_id actor result db = (
  err (not_found Entity.user user_id),
  add_audit_event (audit_event env event_type actor.id user_id result correlation_id) db,
)

-- A user who is no admin and acts on another account gets the same 404 whether or not the account
-- exists: the handler does not run, and one audit entry that says "denied" is all that is stored.
pub stranger_refused :
    {A : Type 0} (handler : Handler A) (env : Ambient) (event_type correlation_id : String)
    (user_id : ℕ) (actor : User) (db : Db)
    → actor.id ≢ user_id
    → actor.role ≡ UserRole.user
    → route env event_type correlation_id user_id actor handler db
      ≡ refused_access A env event_type correlation_id user_id actor "denied" db
unfolding subject_access
stranger_refused handler env event_type correlation_id user_id actor db other role =
    rw role (ground (arith, other))
