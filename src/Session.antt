-- ===== src/Session.antt =====
-- A database session of a request: the rows that are committed, what the surroundings give
-- (clock, assigned row ids), and the errors that end a request (src/fleet_management/exceptions.py).
use fleet_management.Prelude.{ℕ, String, Bool, true, false, Option, none, some, List}
use fleet_management.Models.Fleet.{Station, Vehicle, Renter, Rental}
use fleet_management.Models.Account.{User}
use fleet_management.Models.Privacy.{
  ConsentPurpose, UserConsent, ConsentHistory, UserActivity, AuditEvent, MarketingMessage,
  AnalyticsEvent,
}

pub record Db : Type 0 where
  pub stations : List Station
  pub vehicles : List Vehicle
  pub renters : List Renter
  pub rentals : List Rental
  pub users : List User
  pub user_consents : List UserConsent
  pub consent_history : List ConsentHistory
  pub user_activity : List UserActivity
  pub audit_events : List AuditEvent
  pub marketing_messages : List MarketingMessage
  pub analytics_events : List AnalyticsEvent

pub data TableName : Type 0 where
  stations vehicles renters rentals users user_consents consent_history : TableName
  user_activity audit_events marketing_messages analytics_events : TableName

-- What a call is given from outside: the i-th reading of the clock during the call, and the id
-- that the database assigns to the i-th row that the call inserts into a table.
pub record Ambient : Type 0 where
  pub now : ℕ → ℕ
  pub new_id : TableName → ℕ → ℕ

pub data Entity : Type 0 where
  station vehicle renter rental user telemetry renter_profile : Entity

-- The classes of exceptions.py with what their messages name, the exceptions of the libraries that
-- the code lets through (`integrity_error`, `attribute_error`), and `HTTPException` by its status.
pub data Error : Type 0 where
  not_found : Entity → ℕ → Error
  vehicle_not_available : Entity → ℕ → Error
  station_full : ℕ → Error
  dependency_unavailable : ℕ → Error
  email_already_registered : String → Error
  consent_denied : ConsentPurpose → String → Error
  http_exception : ℕ → Error
  integrity_error attribute_error : Error

pub data Result {ℓ} (A : Type ℓ) : Type ℓ where
  ok : A → Result A
  err : Error → Result A

-- The state comes back beside an error too: what was committed before a raise stays.
abbrev pub Action : Type 0 → Type 0
Action A = Db → Result A × Db

module _ {A : Type 0} where
  abbrev pub pure : A → Action A
  pure a db = (ok a, db)

  abbrev pub raise : Error → Action A
  raise e db = (err e, db)

  abbrev pub gets : (Db → A) → Action A
  gets f db = (ok (f db), db)

  abbrev pub or_raise : Option A → Error → Action A
  or_raise none e = raise e
  or_raise (some a) e = pure a

infixl 5 ◌>>=◌ ◌>>◌
abbrev pub ◌>>=◌ : {A B : Type 0} → Action A → (A → Action B) → Action B
◌>>=◌ m f db = let (r, db') = m db in elim r [ ok a ↦ f a db' | err e ↦ raise e db' ]

abbrev pub ◌>>◌ : {A B : Type 0} → Action A → Action B → Action B
m >> k = m >>= λ _. k

abbrev pub raise_if : Bool → Error → Action (Unit {0})
raise_if true e db = (err e, db)
raise_if false e db = (ok tt, db)

-- `db.commit()` of what the session has staged.
abbrev pub commit : (Db → Db) → Action (Unit {0})
commit change db = (ok tt, change db)

-- A commit that the database refuses where a constraint of the schema is violated: the
-- transaction is rolled back, and `IntegrityError` is raised.
abbrev pub commit_if : Bool → (Db → Db) → Action (Unit {0})
commit_if true change db = (ok tt, change db)
commit_if false change db = (err integrity_error, db)

abbrev pub commit_checked : (Db → Bool) → (Db → Db) → Action (Unit {0})
commit_checked holds change db = commit_if (holds db) change db
