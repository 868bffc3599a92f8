-- ===== src/Consent/Outcome.antt =====
-- How `grant` and `revoke` of services/consent_service.py can end, as families over their results:
-- each case with what the call had found and what it committed.
use fleet_management.Prelude.{
  ℕ, String, ◌≡◌, true, false, none, some, Option-cases, Bool-cases, inl, inr,
}
use fleet_management.Models.Privacy.{ConsentPurpose, UserConsent, is_granted}
use fleet_management.Session.{Db, Ambient, Result, ok, err, integrity_error}
use fleet_management.Consent.{
  ConsentChange, grant_from, revoke_from, get_current, grant, revoke, user_exists, is_current_grant,
  new_consent, renew_consent, withdraw_consent, stage_new, stage_renewal, stage_withdrawal,
}

module _ (env : Ambient) (user_id : ℕ) (purpose : ConsentPurpose) (version source : String)
    (db : Db) where
  pub data Granting : Result ConsentChange × Db → Type 0 where
    already :
        (c : UserConsent)
        → get_current user_id purpose db ≡ some c
        → is_current_grant version c ≡ true
        → Granting (ok (record { consent = some c; changed = false }), db)
    renewed :
        (c : UserConsent)
        → get_current user_id purpose db ≡ some c
        → is_current_grant version c ≡ false
        → Granting (
          ok (record {
            consent = some (renew_consent (env.now 0) version source c);
            changed = true;
          }),
          stage_renewal env user_id purpose version source db,
        )
    created :
        get_current user_id purpose db ≡ none
        → user_exists user_id db ≡ true
        → Granting (
          ok (record {
            consent = some (new_consent env user_id purpose version source);
            changed = true;
          }),
          stage_new env user_id purpose version source db,
        )
    refused :
        get_current user_id purpose db ≡ none
        → user_exists user_id db ≡ false
        → Granting (err integrity_error, db)

  pub grant_outcome : Granting (grant (λ d. d) env user_id purpose version source db)
  unfolding grant
  grant_outcome = elim (Option-cases (get_current user_id purpose db)) [
    | inl missing ↦ elim (Bool-cases (user_exists user_id db)) [
      | inl known ↦ rw (missing, grant_from) (rw missing (rw known (created missing known)))
      | inr unknown ↦
          rw (missing, grant_from)
            (rw missing (
              rw unknown
                (rw (missing, grant_from) (rw missing (rw unknown (refused missing unknown))))))
    ]
    | inr (c, found) ↦ elim (Bool-cases (is_current_grant version c)) [
      | inl same ↦ rw (found, grant_from) (rw same (already c found same))
      | inr other ↦ rw (found, grant_from) (rw other (renewed c found other))
    ]
  ]

module _ (env : Ambient) (user_id : ℕ) (purpose : ConsentPurpose) (source : String) (db : Db) where
  pub data Revoking : Result ConsentChange × Db → Type 0 where
    no_consent :
        get_current user_id purpose db ≡ none
        → Revoking (ok (record { consent = none; changed = false }), db)
    inactive :
        (c : UserConsent)
        → get_current user_id purpose db ≡ some c
        → is_granted c.status ≡ false
        → Revoking (ok (record { consent = some c; changed = false }), db)
    revoked :
        (c : UserConsent)
        → get_current user_id purpose db ≡ some c
        → is_granted c.status ≡ true
        → Revoking (
          ok (record { consent = some (withdraw_consent (env.now 0) source c); changed = true }),
          stage_withdrawal env user_id purpose source c db,
        )

  pub revoke_outcome : Revoking (revoke env user_id purpose source db)
  unfolding revoke
  revoke_outcome = elim (Option-cases (get_current user_id purpose db)) [
    | inl missing ↦ rw (missing, revoke_from) (no_consent missing)
    | inr (c, found) ↦ elim (Bool-cases (is_granted c.status)) [
      | inl live ↦ rw (found, revoke_from) (rw live (revoked c found live))
      | inr gone ↦ rw (found, revoke_from) (rw gone (inactive c found gone))
    ]
  ]
