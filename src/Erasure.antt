-- ===== src/Erasure.antt =====
-- The right to erasure: services/erasure_service.py of src/fleet_management.
pub mod Outcome
pub mod Complete
pub mod Others
pub mod Samples
mod Tests
use Prim.Native.String.{◌++◌ as str_append}
use fleet_management.Prelude.{
  ℕ, String, Bool, true, false, not, ◌&&◌, Option, none, some, List, [], ◌∷◌, map, find?, select,
  update_where, delete_where, count_where, is_some, ◌==◌, if◌then◌else◌, str_eq,
}
use fleet_management.Models.Fleet.{Renter}
use fleet_management.Models.Account.{User}
use fleet_management.Session.{
  Db, Ambient, Entity, not_found, Action, ok, gets, or_raise, commit_checked, pure, ◌>>=◌, ◌>>◌,
}
use fleet_management.Consent.{withdraw_all}
use fleet_management.Audit.{audit_event, add_audit_event, record_audit_event}

abbrev pub anonymized_name : String
anonymized_name = "Anonymized User"

abbrev pub event_type : String
event_type = "user_anonymize"

-- The random values of a call: `uuid.uuid4().hex` for the e-mail address and for the licence
-- number of each renter row (by its id), and the hash of a random password.
pub record Randomness : Type 0 where
  pub email_token : String
  pub license_token : ℕ → String
  pub password_hash : String

abbrev pub anonymize_user_row : Randomness → ℕ → User → User
anonymize_user_row rnd now u = record u {
  email = str_append "anon-" (str_append rnd.email_token "@anon.invalid");
  full_name = anonymized_name;
  phone = none;
  hashed_password = rnd.password_hash;
  is_active = false;
  anonymized_at = some now;
}

abbrev pub anonymize_renter_row : Randomness → Renter → Renter
anonymize_renter_row rnd r = record r {
  full_name = anonymized_name;
  license_number = str_append "anon-" (rnd.license_token r.id);
}

-- `Renter.user_id == user_id`, which no row without an account meets
abbrev pub belongs_to : ℕ → Renter → Bool
belongs_to user_id r = elim r.user_id [ none ↦ false | some k ↦ k == user_id ]

pub record Actions : Type 0 where
  pub renters_anonymized : ℕ
  pub activity_deleted : ℕ
  pub marketing_messages_deleted : ℕ
  pub analytics_events_deleted : ℕ
  pub consents_withdrawn : ℕ

-- What `_erase` stages, in its order; `now` is the caller's moment, and `withdraw_all` reads the
-- clock again.
unfoldable pub erase : Ambient → Randomness → ℕ → ℕ → Db → Actions × Db
erase env rnd now user_id db =
    let withdrawal = withdraw_all env (env.now 1) user_id "erasure" (record db {
      users = update_where (λ u. u.id == user_id) (anonymize_user_row rnd now) db.users;
      renters = update_where (belongs_to user_id) (anonymize_renter_row rnd) db.renters;
      user_activity = delete_where (λ a. a.user_id == user_id) db.user_activity;
      marketing_messages = delete_where (λ m. m.user_id == user_id) db.marketing_messages;
      analytics_events = delete_where (λ e. e.user_id == user_id) db.analytics_events;
    }) in
    (
      record {
        renters_anonymized = count_where (belongs_to user_id) db.renters;
        activity_deleted = count_where (λ a. a.user_id == user_id) db.user_activity;
        marketing_messages_deleted = count_where (λ m. m.user_id == user_id) db.marketing_messages;
        analytics_events_deleted = count_where (λ e. e.user_id == user_id) db.analytics_events;
        consents_withdrawn = withdrawal.0;
      },
      withdrawal.1,
    )

-- The unique columns `users.email` and `renters.license_number` after the staged change.
abbrev pub all_distinct : List String → Bool
all_distinct [] = true
all_distinct (s ∷ ss) = not (is_some (find? (str_eq s) ss)) && all_distinct ss

unfoldable pub unique_columns_hold : Db → Bool
unique_columns_hold db =
    all_distinct (map (λ u. u.email) db.users)
    && all_distinct (map (λ r. r.license_number) db.renters)

pub record AnonymizeOutcome : Type 0 where
  pub subject_id : ℕ
  pub status : String
  pub actions : Option Actions

abbrev pub stage_erasure : Ambient → Randomness → ℕ → ℕ → String → Db → Db
stage_erasure env rnd subject_id actor_id correlation_id db =
    add_audit_event (audit_event env event_type actor_id subject_id "anonymized" correlation_id)
      (erase env rnd (env.now 0) subject_id db).1

anonymize_found : Ambient → Randomness → User → ℕ → String → Action AnonymizeOutcome
anonymize_found env rnd subject actor_id correlation_id = elim subject.anonymized_at [
  | some _ ↦ do
    record_audit_event env event_type actor_id subject.id "already_anonymized" correlation_id
    pure (record { subject_id = subject.id; status = "already_anonymized"; actions = none })
  | none ↦ do
    actions ← gets (λ db. (erase env rnd (env.now 0) subject.id db).0)
    commit_checked
        (λ db. unique_columns_hold (stage_erasure env rnd subject.id actor_id correlation_id db))
        (stage_erasure env rnd subject.id actor_id correlation_id)
    pure (record { subject_id = subject.id; status = "anonymized"; actions = some actions })
]

unfoldable pub anonymize_user : Ambient → Randomness → ℕ → ℕ → String → Action AnonymizeOutcome
unfolding anonymize_found
anonymize_user env rnd subject_id actor_id correlation_id = do
  found ← gets (λ db. find? (λ u. u.id == subject_id) db.users)
  subject ← or_raise found (not_found Entity.user subject_id)
  anonymize_found env rnd subject actor_id correlation_id
