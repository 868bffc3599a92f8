-- ===== src/Consent/Effects.antt =====
-- The gate after a grant and after a revocation: `grant`, `revoke` and `check` of
-- services/consent_service.py, src/fleet_management.
use text.Mathlib.TextPositions.{eq_refl}
use fleet_management.Prelude.{
  ℕ, String, ◌≡◌, refl, true, false, none, some, [], ◌∷◌, find?-update, find?-satisfies,
  find?-append, arith,
}
use fleet_management.Models.Privacy.{
  ConsentPurpose, UserConsent, marketing_email, optional_analytics, personalization, purpose_eq,
}
use fleet_management.Session.{Db, Ambient, Result, ok}
use fleet_management.Consent.Outcome.{
  Granting, already, renewed, created, refused, grant_outcome, Revoking, no_consent, inactive,
  revoked, revoke_outcome,
}
use fleet_management.Consent.{
  grant_from, ConsentChange, stage_new, stage_renewal, stage_withdrawal, get_current, grant, revoke,
  check, is_consent, new_consent, renew_consent, withdraw_consent,
}

pub purpose_eq_refl : (p : ConsentPurpose) → purpose_eq p p ≡ true
purpose_eq_refl marketing_email = refl
purpose_eq_refl optional_analytics = refl
purpose_eq_refl personalization = refl

found_matches :
    (user_id : ℕ) (purpose : ConsentPurpose) (db : Db) (c : UserConsent)
    → get_current user_id purpose db ≡ some c
    → is_consent user_id purpose c ≡ true
found_matches user_id purpose db c = find?-satisfies (is_consent user_id purpose) db.user_consents c

-- The row that stands for the pair after each kind of commit.
module _ (env : Ambient) (user_id : ℕ) (purpose : ConsentPurpose) (source : String) (db : Db) where
  pub current-new :
      (version : String)
      → get_current user_id purpose db ≡ none
      → get_current user_id purpose (stage_new env user_id purpose version source db)
        ≡ some (new_consent env user_id purpose version source)
  current-new version missing = ground (
    arith,
    purpose_eq_refl purpose,
    find?-append (is_consent user_id purpose) db.user_consents
        (new_consent env user_id purpose version source ∷ []),
  )

  pub current-renewal :
      (version : String) (c : UserConsent)
      → get_current user_id purpose db ≡ some c
      → get_current user_id purpose (stage_renewal env user_id purpose version source db)
        ≡ some (renew_consent (env.now 0) version source c)
  current-renewal version c found =
      rw
        (find?-update (is_consent user_id purpose) (is_consent user_id purpose)
          (renew_consent (env.now 0) version source) db.user_consents (λ x. refl))
        (rw found (rw (found_matches user_id purpose db c found)))

  pub current-withdrawal :
      (c : UserConsent)
      → get_current user_id purpose db ≡ some c
      → get_current user_id purpose (stage_withdrawal env user_id purpose source c db)
        ≡ some (withdraw_consent (env.now 0) source c)
  current-withdrawal c found =
      rw
        (find?-update (is_consent user_id purpose) (is_consent user_id purpose)
          (withdraw_consent (env.now 0) source) db.user_consents (λ x. refl))
        (rw found (rw (found_matches user_id purpose db c found)))

Granting-allows :
    (env : Ambient) (user_id : ℕ) (purpose : ConsentPurpose) (version source : String) (db : Db)
    (change : ConsentChange) (o : Result ConsentChange × Db)
    → Granting env user_id purpose version source db o
    → o.0 ≡ ok change
    → (check o.1 user_id purpose version).allowed ≡ true
unfolding check
Granting-allows env user_id purpose version source db change o (already c found same) done =
    rw found (ground arith)
Granting-allows env user_id purpose version source db change o (renewed c found other) done =
    rw (current-renewal env user_id purpose source db version c found)
      (ground (arith, eq_refl version))
Granting-allows env user_id purpose version source db change o (created missing known) done =
    rw (current-new env user_id purpose source db version missing) (ground (arith, eq_refl version))
Granting-allows env user_id purpose version source db change o (refused missing unknown) done = cc

-- After a grant that succeeded the gate allows the purpose at the version that was granted.
pub check-grant :
    (env : Ambient) (user_id : ℕ) (purpose : ConsentPurpose) (version source : String) (db : Db)
    (change : ConsentChange)
    → (grant (λ d. d) env user_id purpose version source db).0 ≡ ok change
    → (check
        (grant (λ d. d) env user_id purpose version source db).1
        user_id
        purpose
        version).allowed
      ≡ true
check-grant env user_id purpose version source db change =
    Granting-allows env user_id purpose version source db change _
      (grant_outcome env user_id purpose version source db)

Revoking-denies :
    (env : Ambient) (user_id : ℕ) (purpose : ConsentPurpose) (source version : String) (db : Db)
    (o : Result ConsentChange × Db)
    → Revoking env user_id purpose source db o
    → (check o.1 user_id purpose version).allowed ≡ false
unfolding check
Revoking-denies env user_id purpose source version db o (no_consent missing) = rw missing
Revoking-denies env user_id purpose source version db o (inactive c found gone) =
    rw found (ground arith)
Revoking-denies env user_id purpose source version db o (revoked c found live) =
    rw (current-withdrawal env user_id purpose source db c found)

-- After a revocation the gate denies the purpose at every version, whether or not there had been
-- a consent.
pub check-revoke :
    (env : Ambient) (user_id : ℕ) (purpose : ConsentPurpose) (source version : String) (db : Db)
    → (check (revoke env user_id purpose source db).1 user_id purpose version).allowed ≡ false
check-revoke env user_id purpose source version db =
    Revoking-denies env user_id purpose source version db _
      (revoke_outcome env user_id purpose source db)

-- A second grant of the version that was just granted finds it and writes nothing.
Granting-again :
    (env later : Ambient) (user_id : ℕ) (purpose : ConsentPurpose) (version source source' : String)
    (db : Db) (change : ConsentChange) (o : Result ConsentChange × Db)
    → Granting env user_id purpose version source db o
    → o.0 ≡ ok change
    → grant (λ d. d) later user_id purpose version source' o.1
      ≡ (ok (record { consent = change.consent; changed = false }), o.1)
unfolding grant
Granting-again env later user_id purpose version source source' db change o (already c found same)
      done =
    rw (found, grant_from) (rw same (ground arith))
Granting-again env later user_id purpose version source source' db change o (renewed c found other)
      done =
    rw (current-renewal env user_id purpose source db version c found, grant_from)
      (ground (arith, eq_refl version))
Granting-again env later user_id purpose version source source' db change o (created missing known)
      done =
    rw (current-new env user_id purpose source db version missing, grant_from)
      (ground (arith, eq_refl version))
Granting-again env later user_id purpose version source source' db change o
      (refused missing unknown) done =
    cc

-- Granting is idempotent: repeating a grant that succeeded, at another time and from another
-- source, reports the same consent as unchanged and writes nothing.
pub grant-grant :
    (env later : Ambient) (user_id : ℕ) (purpose : ConsentPurpose) (version source source' : String)
    (db : Db) (change : ConsentChange)
    → (grant (λ d. d) env user_id purpose version source db).0 ≡ ok change
    → let after = (grant (λ d. d) env user_id purpose version source db).1 in
      grant (λ d. d) later user_id purpose version source' after
      ≡ (ok (record { consent = change.consent; changed = false }), after)
grant-grant env later user_id purpose version source source' db change =
    Granting-again env later user_id purpose version source source' db change _
      (grant_outcome env user_id purpose version source db)
