-- ===== src/Erasure/Outcome.antt =====
-- How `anonymize_user` of services/erasure_service.py can end, as a family over its results.
use fleet_management.Prelude.{
  ℕ, String, ◌≡◌, sym, true, false, Option, none, some, find?, ◌==◌, arith, Option-cases,
  Bool-cases, inl, inr,
}
use mathlib.Core.Path.{subst}
use fleet_management.Models.Account.{User}
use fleet_management.Session.{Db, Ambient, Error, Result, ok, err, or_raise, integrity_error}
use fleet_management.Audit.{audit_event, add_audit_event, record_audit_event}
use fleet_management.Erasure.{
  Randomness, AnonymizeOutcome, anonymize_user, anonymize_found, erase, event_type, stage_erasure,
  unique_columns_hold,
}

abbrev pub find_user : ℕ → Db → Option User
find_user k db = find? (λ u. u.id == k) db.users

module _ (env : Ambient) (rnd : Randomness) (subject_id actor_id : ℕ) (correlation_id : String)
    (db : Db) where
  pub data Erasing : Result AnonymizeOutcome × Db → Type 0 where
    rejected : (e : Error) → Erasing (err e, db)
    repeated :
        (u : User) (t : ℕ)
        → find_user subject_id db ≡ some u
        → u.anonymized_at ≡ some t
        → Erasing (
          ok (record { subject_id = u.id; status = "already_anonymized"; actions = none }),
          add_audit_event
              (audit_event env event_type actor_id u.id "already_anonymized" correlation_id)
              db,
        )
    erased :
        (u : User)
        → find_user subject_id db ≡ some u
        → u.anonymized_at ≡ none
        → unique_columns_hold (stage_erasure env rnd u.id actor_id correlation_id db) ≡ true
        → Erasing (
          ok (record {
            subject_id = u.id;
            status = "anonymized";
            actions = some (erase env rnd (env.now 0) u.id db).0;
          }),
          stage_erasure env rnd u.id actor_id correlation_id db,
        )

  first_erasure :
      (u : User)
      → u.anonymized_at ≡ none
      → unique_columns_hold (stage_erasure env rnd u.id actor_id correlation_id db) ≡ true
      → anonymize_found env rnd u actor_id correlation_id db ≡ (
        ok (record {
          subject_id = u.id;
          status = "anonymized";
          actions = some (erase env rnd (env.now 0) u.id db).0;
        }),
        stage_erasure env rnd u.id actor_id correlation_id db,
      )
  unfolding anonymize_found
  first_erasure u first hold = ground arith

  clashing_erasure :
      (u : User)
      → u.anonymized_at ≡ none
      → unique_columns_hold (stage_erasure env rnd u.id actor_id correlation_id db) ≡ false
      → anonymize_found env rnd u actor_id correlation_id db ≡ (err integrity_error, db)
  unfolding anonymize_found
  clashing_erasure u first clash = ground arith

  pub anonymize_outcome : Erasing (anonymize_user env rnd subject_id actor_id correlation_id db)
  unfolding anonymize_user record_audit_event
  anonymize_outcome = elim (Option-cases (find_user subject_id db)) [
    | inl missing ↦ rw (missing, or_raise) (rejected _)
    | inr (u, found) ↦ elim (Option-cases u.anonymized_at) [
      | inr (t, before) ↦
          rw (found, or_raise) (rw (before, anonymize_found) (repeated u t found before))
      | inl first ↦
          elim (Bool-cases
            (unique_columns_hold (stage_erasure env rnd u.id actor_id correlation_id db))) [
              | inl hold ↦
                  rw (found, or_raise)
                    (subst Erasing (sym (first_erasure u first hold)) (erased u found first hold))
              | inr clash ↦
                  rw (found, or_raise)
                    (subst Erasing (sym (clashing_erasure u first clash))
                      (rejected integrity_error))
            ]
    ]
  ]
