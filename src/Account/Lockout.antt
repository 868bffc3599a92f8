-- ===== src/Account/Lockout.antt =====
-- An erased account (services/erasure_service.py) at the login and at the check of a token
-- (services/user_service.py and auth.py of src/fleet_management).
use fleet_management.Prelude.{ℕ, String, ◌≡◌, ◌≢◌, refl, true, Option, none, some}
use fleet_management.Models.Account.{User}
use fleet_management.Session.{Db, Ambient, ok, err, http_exception}
use fleet_management.Account.{
  Passwords, Tokens, authenticate, get_current_user, decode_access_token, find_account, user_of,
  active_only,
}
use fleet_management.Account.Login.{authenticate_iff}
use fleet_management.Erasure.{Randomness, AnonymizeOutcome, Actions, anonymize_user}
use fleet_management.Erasure.Complete.{IsErased, anonymize_user-IsErased}

closed_account :
    (k : ℕ) (db : Db) (o : Option User)
    → find_account k db ≡ o
    → IsErased k db
    → active_only o ≡ err (http_exception 401)
closed_account k db none e gone = refl
closed_account k db (some u) e gone = rw ((gone.closed u e).0) refl

-- When an erasure that reports its actions has just succeeded for an account, a token that names
-- the account is answered with 401, whenever it was issued, and no address and password
-- authenticate the account's row.
pub locked_out :
    (T : Tokens) (P : Passwords) (env : Ambient) (rnd : Randomness) (subject_id actor_id : ℕ)
    (correlation_id email password : String) (db : Db) (out : AnonymizeOutcome) (actions : Actions)
    (now : ℕ) (token : T.Token) (u : User)
    → (anonymize_user env rnd subject_id actor_id correlation_id db).0 ≡ ok out
    → out.actions ≡ some actions
    → decode_access_token T now token ≡ some subject_id
    → find_account subject_id (anonymize_user env rnd subject_id actor_id correlation_id db).1
      ≡ some u
    → let after = (anonymize_user env rnd subject_id actor_id correlation_id db).1 in
      (get_current_user T now token after ≡ (err (http_exception 401), after))
      × (authenticate P email password after ≢ some u)
unfolding get_current_user
locked_out T P env rnd subject_id actor_id correlation_id email password db out actions now token u
      done acted names stands =
    let after = (anonymize_user env rnd subject_id actor_id correlation_id db).1 in
    let gone =
      anonymize_user-IsErased env rnd subject_id actor_id correlation_id db out actions done
        acted in
    (
      rw (names, user_of)
          (rw (closed_account subject_id after (find_account subject_id after) refl gone) refl),
      λ in_again.
          let live : u.is_active ≡ true =
            ((authenticate_iff P email password u after).0 in_again).2 in
          cc (live, (gone.closed u stands).0),
    )
