-- ===== src/Consent/Evidence.antt =====
-- The history as the evidence for the consents, by replaying it: `grant`, `revoke` and
-- `withdraw_all` of services/consent_service.py, src/fleet_management.
use mathlib.Core.Path.{subst}
use fleet_management.Prelude.{
  ℕ, String, ◌≡◌, refl, ap, Bool, true, false, ◌&&◌, Option, none, some, List, [], ◌∷◌, ◌++◌, ◌==◌,
  if◌then◌else◌, find?-update, find?-append, find?-satisfies, Bool-cases, Option-cases, inl, inr,
  arith,
}
use fleet_management.Models.Privacy.{
  ConsentPurpose, purpose_eq, ConsentStatus, granted, withdrawn, ConsentAction, UserConsent,
  ConsentHistory,
}
use fleet_management.Session.{Db, consent_history, Ambient, Result}
use fleet_management.Consent.{
  ConsentChange, get_current, is_consent, grant, revoke, revoke_event, renew_consent,
  withdraw_consent, new_consent, grant_event, stage_new, stage_renewal, stage_withdrawal,
}
use fleet_management.Consent.Outcome.{
  Granting, already, renewed, created, refused, grant_outcome, Revoking, no_consent, inactive,
  revoked, revoke_outcome,
}
use fleet_management.Consent.Effects.{
  purpose_eq_refl, current-new, current-renewal, current-withdrawal,
}

abbrev pub Standing : Type 0
Standing = Option (ConsentStatus × String)

abbrev pub standing : Option UserConsent → Standing
standing none = none
standing (some c) = some (c.status, c.policy_version)

abbrev pub is_event : ℕ → ConsentPurpose → ConsentHistory → Bool
is_event user_id purpose h = h.user_id == user_id && purpose_eq h.purpose purpose

abbrev pub after_action : ConsentAction → ConsentStatus
after_action ConsentAction.grant = granted
after_action ConsentAction.revoke = withdrawn

-- What the rows say, one after the other, of one user and purpose.
abbrev pub record_event : ℕ → ConsentPurpose → Standing → ConsentHistory → Standing
record_event user_id purpose acc h =
    if is_event user_id purpose h then some (after_action h.action, h.policy_version) else acc

abbrev pub replay : ℕ → ConsentPurpose → Standing → List ConsentHistory → Standing
replay user_id purpose acc [] = acc
replay user_id purpose acc (h ∷ hs) = replay user_id purpose (record_event user_id purpose acc h) hs

-- The row of each user and purpose stands as the last entry of its history says.
abbrev pub IsEvidenced : Db → Type 0
IsEvidenced db =
    (user_id : ℕ) (purpose : ConsentPurpose)
    → standing (get_current user_id purpose db) ≡ replay user_id purpose none db.consent_history

pub replay-append :
    (user_id : ℕ) (purpose : ConsentPurpose) (acc : Standing) (xs ys : List ConsentHistory)
    → replay user_id purpose acc (xs ++ ys)
      ≡ replay user_id purpose (replay user_id purpose acc xs) ys
replay-append user_id purpose acc [] ys = refl
replay-append user_id purpose acc (h ∷ hs) ys =
    replay-append user_id purpose (record_event user_id purpose acc h) hs ys

purpose_eq→eq : (p q : ConsentPurpose) → purpose_eq p q ≡ true → p ≡ q
purpose_eq→eq p q h = ground arith

module _ (env : Ambient) (u : ℕ) (p : ConsentPurpose) (source : String) (db : Db) (v : ℕ)
    (q : ConsentPurpose) where
  -- the pair of the call, or another
  same_pair : (u == v && purpose_eq p q) ≡ true → (u ≡ v) × (p ≡ q)
  same_pair h = (ground arith, ground arith)

  other-renewal :
      (version : String)
      → (u == v && purpose_eq p q) ≡ false
      → get_current v q (stage_renewal env u p version source db) ≡ get_current v q db
  other-renewal version ne = elim (Option-cases (get_current v q db)) [
    | inl missing ↦
        rw
          (find?-update (is_consent v q) (is_consent u p) (renew_consent (env.now 0) version source)
            db.user_consents (λ x. refl))
          (rw missing refl)
    | inr (c, found) ↦
        rw
          (find?-update (is_consent v q) (is_consent u p) (renew_consent (env.now 0) version source)
            db.user_consents (λ x. refl))
          (rw found (ground (arith, find?-satisfies (is_consent v q) db.user_consents c found)))
  ]

  other-withdrawal :
      (c : UserConsent)
      → (u == v && purpose_eq p q) ≡ false
      → get_current v q (stage_withdrawal env u p source c db) ≡ get_current v q db
  other-withdrawal e ne = elim (Option-cases (get_current v q db)) [
    | inl missing ↦
        rw
          (find?-update (is_consent v q) (is_consent u p) (withdraw_consent (env.now 0) source)
            db.user_consents (λ x. refl))
          (rw missing refl)
    | inr (c, found) ↦
        rw
          (find?-update (is_consent v q) (is_consent u p) (withdraw_consent (env.now 0) source)
            db.user_consents (λ x. refl))
          (rw found (ground (arith, find?-satisfies (is_consent v q) db.user_consents c found)))
  ]

  other-new :
      (version : String)
      → (u == v && purpose_eq p q) ≡ false
      → get_current v q (stage_new env u p version source db) ≡ get_current v q db
  other-new version ne = ground (
    arith,
    find?-append (is_consent v q) db.user_consents (new_consent env u p version source ∷ []),
  )

  -- One more entry, which tells of the call's pair, after the row of that pair was written.
  one_more :
      (after : Db) (event : ConsentHistory)
      → is_event u p event ≡ true
      → ((u == v && purpose_eq p q) ≡ false → is_event v q event ≡ false)
      → after.consent_history ≡ db.consent_history ++ event ∷ []
      → standing (get_current u p after) ≡ some (after_action event.action, event.policy_version)
      → ((u == v && purpose_eq p q) ≡ false → get_current v q after ≡ get_current v q db)
      → standing (get_current v q db) ≡ replay v q none db.consent_history
      → standing (get_current v q after) ≡ replay v q none after.consent_history
  one_more after event about apart longer row others h =
      elim (Bool-cases (u == v && purpose_eq p q)) [
        | inl same ↦
            let (eu, ep) = same_pair same in
            rw longer (
              rw (replay-append v q none db.consent_history (event ∷ [])) (
                rw
                  (subst (λ k. is_event k q event ≡ true) eu
                    (subst (λ r. is_event u r event ≡ true) ep about))
                  (subst
                    (λ k.
                      standing (get_current k q after)
                      ≡ some (after_action event.action, event.policy_version))
                    eu
                    (subst
                      (λ r.
                        standing (get_current u r after)
                        ≡ some (after_action event.action, event.policy_version))
                      ep row))))
        | inr ne ↦ rw longer (
            rw (replay-append v q none db.consent_history (event ∷ []))
              (rw (others ne, apart ne) h))
      ]

pub Granting-IsEvidenced :
    (env : Ambient) (user_id : ℕ) (purpose : ConsentPurpose) (version source : String) (db : Db)
    (o : Result ConsentChange × Db)
    → Granting env user_id purpose version source db o
    → IsEvidenced db
    → IsEvidenced o.1
Granting-IsEvidenced env user_id purpose version source db o (already c found same) h v q = h v q
Granting-IsEvidenced env user_id purpose version source db o (renewed c found other) h v q =
    one_more env user_id purpose source db v q (stage_renewal env user_id purpose version source db)
      (grant_event env user_id purpose version source) (ground (arith, purpose_eq_refl purpose))
      (λ ne. ne) refl (ap standing (current-renewal env user_id purpose source db version c found))
      (other-renewal env user_id purpose source db v q version) (h v q)
Granting-IsEvidenced env user_id purpose version source db o (created missing known) h v q =
    one_more env user_id purpose source db v q (stage_new env user_id purpose version source db)
      (grant_event env user_id purpose version source) (ground (arith, purpose_eq_refl purpose))
      (λ ne. ne) refl (ap standing (current-new env user_id purpose source db version missing))
      (other-new env user_id purpose source db v q version) (h v q)
Granting-IsEvidenced env user_id purpose version source db o (refused missing unknown) h v q = h v q

Revoking-IsEvidenced :
    (env : Ambient) (user_id : ℕ) (purpose : ConsentPurpose) (source : String) (db : Db)
    (o : Result ConsentChange × Db)
    → Revoking env user_id purpose source db o
    → IsEvidenced db
    → IsEvidenced o.1
Revoking-IsEvidenced env user_id purpose source db o (no_consent missing) h v q = h v q
Revoking-IsEvidenced env user_id purpose source db o (inactive c found gone) h v q = h v q
Revoking-IsEvidenced env user_id purpose source db o (revoked c found live) h v q =
    let about = find?-satisfies (is_consent user_id purpose) db.user_consents c found in
    one_more env user_id purpose source db v q (stage_withdrawal env user_id purpose source c db)
      (revoke_event (env.new_id consent_history 0) (env.now 0) source c) about (λ ne. ground arith)
      refl (ap standing (current-withdrawal env user_id purpose source db c found))
      (other-withdrawal env user_id purpose source db v q c) (h v q)

-- Where replaying the history tells the status and version of every consent, it does so after a
-- grant, whatever that does.
pub grant-IsEvidenced :
    (env : Ambient) (user_id : ℕ) (purpose : ConsentPurpose) (version source : String) (db : Db)
    → IsEvidenced db
    → IsEvidenced (grant (λ d. d) env user_id purpose version source db).1
grant-IsEvidenced env user_id purpose version source db =
    Granting-IsEvidenced env user_id purpose version source db _
      (grant_outcome env user_id purpose version source db)

-- Where replaying the history tells the status and version of every consent, it does so after a
-- revocation, whatever that does.
pub revoke-IsEvidenced :
    (env : Ambient) (user_id : ℕ) (purpose : ConsentPurpose) (source : String) (db : Db)
    → IsEvidenced db
    → IsEvidenced (revoke env user_id purpose source db).1
revoke-IsEvidenced env user_id purpose source db =
    Revoking-IsEvidenced env user_id purpose source db _
      (revoke_outcome env user_id purpose source db)
