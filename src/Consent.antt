-- ===== src/Consent.antt =====
-- Consents per purpose and the policy gate: services/consent_service.py of src/fleet_management.
pub mod Outcome
pub mod Effects
pub mod Evidence
pub mod Withdrawals
pub mod Keys
mod Tests
use fleet_management.Prelude.{
  ℕ, suc, ◌+◌, String, Bool, true, false, not, ◌&&◌, Option, none, some, List, [], ◌∷◌, ◌++◌,
  length, find?, select, update_where, order_by, is_some, ◌==◌, if◌then◌else◌, str_eq,
}
use fleet_management.Models.Privacy.{
  ConsentPurpose, marketing_email, optional_analytics, personalization, ConsentStatus, granted,
  withdrawn, ConsentAction, UserConsent, ConsentHistory, purpose_eq, is_granted,
}
use fleet_management.Session.{
  Db, user_consents, consent_history, Ambient, Result, ok, err, integrity_error, Action, gets,
  commit, pure, ◌>>=◌, ◌>>◌,
}

abbrev pub current_policy_version : String
current_policy_version = "2026-01"

abbrev pub reason_granted : String
reason_granted = "granted"

abbrev pub reason_missing : String
reason_missing = "no_consent_on_record"

abbrev pub reason_withdrawn : String
reason_withdrawn = "consent_withdrawn"

abbrev pub reason_version : String
reason_version = "policy_version_mismatch"

pub record GateDecision : Type 0 where
  pub allowed : Bool
  pub reason : String

pub record ConsentChange : Type 0 where
  pub consent : Option UserConsent
  pub changed : Bool

-- `UserConsent.user_id == user_id, UserConsent.purpose == purpose`; by the table's unique
-- constraint at most one row meets it, so it names the row that was read in an update too.
abbrev pub is_consent : ℕ → ConsentPurpose → UserConsent → Bool
is_consent user_id purpose c = c.user_id == user_id && purpose_eq c.purpose purpose

abbrev pub get_current : ℕ → ConsentPurpose → Db → Option UserConsent
get_current user_id purpose db = find? (is_consent user_id purpose) db.user_consents

abbrev pub history : ℕ → ℕ → ConsentPurpose → ConsentAction → String → String → ℕ → ConsentHistory
history id user_id purpose action policy_version source now = record {
  id = id;
  user_id = user_id;
  purpose = purpose;
  action = action;
  policy_version = policy_version;
  source = source;
  occurred_at = now;
}

abbrev pub add_history : ConsentHistory → Db → Db
add_history event db = record db { consent_history = db.consent_history ++ event ∷ [] }

-- The row of a first grant.
abbrev pub new_consent : Ambient → ℕ → ConsentPurpose → String → String → UserConsent
new_consent env user_id purpose policy_version source = record {
  id = env.new_id user_consents 0;
  user_id = user_id;
  purpose = purpose;
  status = granted;
  policy_version = policy_version;
  granted_at = some (env.now 0);
  withdrawn_at = none;
  updated_at = env.now 0;
  source = source;
}

abbrev pub renew_consent : ℕ → String → String → UserConsent → UserConsent
renew_consent now policy_version source c = record c {
  status = granted;
  policy_version = policy_version;
  granted_at = some now;
  updated_at = now;
  source = source;
}

abbrev pub withdraw_consent : ℕ → String → UserConsent → UserConsent
withdraw_consent now source c = record c {
  status = withdrawn;
  withdrawn_at = some now;
  updated_at = now;
  source = source;
}

abbrev pub is_current_grant : String → UserConsent → Bool
is_current_grant policy_version c = is_granted c.status && str_eq c.policy_version policy_version

abbrev pub user_exists : ℕ → Db → Bool
user_exists user_id db = is_some (find? (λ u. u.id == user_id) db.users)

abbrev pub grant_event : Ambient → ℕ → ConsentPurpose → String → String → ConsentHistory
grant_event env user_id purpose policy_version source =
    history (env.new_id consent_history 0) user_id purpose ConsentAction.grant policy_version source
      (env.now 0)

abbrev pub stage_new : Ambient → ℕ → ConsentPurpose → String → String → Db → Db
stage_new env user_id purpose policy_version source db =
    add_history (grant_event env user_id purpose policy_version source) (record db {
      user_consents =
          db.user_consents ++ new_consent env user_id purpose policy_version source ∷ [];
    })

abbrev pub stage_renewal : Ambient → ℕ → ConsentPurpose → String → String → Db → Db
stage_renewal env user_id purpose policy_version source db =
    add_history (grant_event env user_id purpose policy_version source) (record db {
      user_consents =
          update_where (is_consent user_id purpose)
            (renew_consent (env.now 0) policy_version source) db.user_consents;
    })

-- The user's row is there, and no consent stands for the pair: the foreign key and the unique
-- constraint of `user_consents`.
abbrev pub consent_keys_hold : ℕ → ConsentPurpose → Db → Bool
consent_keys_hold user_id purpose db =
    user_exists user_id db && not (is_some (get_current user_id purpose db))

-- `others` is what other sessions commit between this call's read and its commit. A row that was
-- read is locked (`with_for_update`) and stays; where none was read nothing is locked, and the
-- constraints are checked when the rows are written.
grant_from :
    (Db → Db)
    → Ambient
    → ℕ
    → ConsentPurpose
    → String
    → String
    → Option UserConsent
    → Action ConsentChange
grant_from others env user_id purpose policy_version source none db =
    if consent_keys_hold user_id purpose (others db)
    then (
      ok (record {
        consent = some (new_consent env user_id purpose policy_version source);
        changed = true;
      }),
      stage_new env user_id purpose policy_version source (others db),
    )
    else (err integrity_error, others db)
grant_from others env user_id purpose policy_version source (some consent) db =
    if is_current_grant policy_version consent
    then (ok (record { consent = some consent; changed = false }), db)
    else (
      ok (record {
        consent = some (renew_consent (env.now 0) policy_version source consent);
        changed = true;
      }),
      stage_renewal env user_id purpose policy_version source db,
    )

unfoldable pub grant_once :
    (Db → Db) → Ambient → ℕ → ConsentPurpose → String → String → Action ConsentChange
unfolding grant_from
grant_once others env user_id purpose policy_version source db =
    grant_from others env user_id purpose policy_version source (get_current user_id purpose db) db

-- What a second try reads: the clock again, and the ids behind those of the first.
abbrev pub second_try : Ambient → Ambient
second_try env = record { now = λ i. env.now (suc i); new_id = λ table i. env.new_id table (suc i) }

-- `except IntegrityError: rollback` and one more try.
abbrev pub retry_on_integrity : {A : Type 0} → Action A → Result A × Db → Result A × Db
retry_on_integrity again (ok a, db) = (ok a, db)
retry_on_integrity again (err integrity_error, db) = again db
retry_on_integrity again (err e, db) = (err e, db)

unfoldable pub grant :
    (Db → Db) → Ambient → ℕ → ConsentPurpose → String → String → Action ConsentChange
unfolding grant_once
grant others env user_id purpose policy_version source db =
    retry_on_integrity (grant_once (λ d. d) (second_try env) user_id purpose policy_version source)
      (grant_once others env user_id purpose policy_version source db)

abbrev pub revoke_event : ℕ → ℕ → String → UserConsent → ConsentHistory
revoke_event id now source c =
    history id c.user_id c.purpose ConsentAction.revoke c.policy_version source now

abbrev pub stage_withdrawal : Ambient → ℕ → ConsentPurpose → String → UserConsent → Db → Db
stage_withdrawal env user_id purpose source consent db =
    add_history (revoke_event (env.new_id consent_history 0) (env.now 0) source consent)
      (record db {
        user_consents =
            update_where (is_consent user_id purpose) (withdraw_consent (env.now 0) source)
              db.user_consents;
      })

revoke_from : Ambient → ℕ → ConsentPurpose → String → Option UserConsent → Action ConsentChange
revoke_from env user_id purpose source none db =
    (ok (record { consent = none; changed = false }), db)
revoke_from env user_id purpose source (some consent) db =
    if is_granted consent.status
    then (
      ok (record { consent = some (withdraw_consent (env.now 0) source consent); changed = true }),
      stage_withdrawal env user_id purpose source consent db,
    )
    else (ok (record { consent = some consent; changed = false }), db)

unfoldable pub revoke : Ambient → ℕ → ConsentPurpose → String → Action ConsentChange
unfolding revoke_from
revoke env user_id purpose source db =
    revoke_from env user_id purpose source (get_current user_id purpose db) db

abbrev pub is_granted_of : ℕ → UserConsent → Bool
is_granted_of user_id c = c.user_id == user_id && is_granted c.status

-- One history row for each consent; `i` counts the rows that were added before.
abbrev pub revoke_events : Ambient → ℕ → ℕ → String → List UserConsent → List ConsentHistory
revoke_events env i now source [] = []
revoke_events env i now source (c ∷ cs) =
    revoke_event (env.new_id consent_history i) now source c
    ∷ revoke_events env (suc i) now source cs

-- What `withdraw_all` stages in its caller's transaction at the moment `now`, and how many
-- consents it withdrew.
unfoldable pub withdraw_all : Ambient → ℕ → ℕ → String → Db → ℕ × Db
withdraw_all env now user_id source db =
    let consents = select (is_granted_of user_id) db.user_consents in
    (
      length consents,
      record db {
        user_consents =
            update_where (is_granted_of user_id) (withdraw_consent now source) db.user_consents;
        consent_history = db.consent_history ++ revoke_events env 0 now source consents;
      },
    )

-- The names of the purposes in the order of their text.
abbrev pub purpose_rank : ConsentPurpose → ℕ
purpose_rank marketing_email = 0
purpose_rank optional_analytics = 1
purpose_rank personalization = 2

unfoldable pub list_current : ℕ → Db → List UserConsent
list_current user_id db =
    order_by (λ c. purpose_rank c.purpose) (select (λ c. c.user_id == user_id) db.user_consents)

unfoldable pub list_history : ℕ → Db → List ConsentHistory
list_history user_id db =
    order_by (λ h. h.id) (select (λ h. h.user_id == user_id) db.consent_history)

unfoldable pub decide : Option UserConsent → String → GateDecision
decide none required_version = record { allowed = false; reason = reason_missing }
decide (some c) required_version =
    if not (is_granted c.status)
    then record { allowed = false; reason = reason_withdrawn }
    else if not (str_eq c.policy_version required_version)
    then record { allowed = false; reason = reason_version }
    else record { allowed = true; reason = reason_granted }

-- `ConsentPolicyGate.check`
unfoldable pub check : Db → ℕ → ConsentPurpose → String → GateDecision
unfolding decide
check db user_id purpose required_version = decide (get_current user_id purpose db) required_version
