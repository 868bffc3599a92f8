-- ===== src/Account/Login.antt =====
-- A registration, a login and the use of its token: services/user_service.py, security.py, auth.py
-- and api/auth.py of src/fleet_management.
use fleet_management.Prelude.{
  ℕ, ◌+◌, ◌*◌, ◌/◌, ◌≤◌, ◌<◌, String, ◌≡◌, refl, ◌∙◌, ap, true, Option, none, some, List, [], ◌∷◌,
  ◌++◌, find?, find?-append, str_eq, ◌↔◌, arith, Option-cases, Bool-cases, inl, inr,
}
use text.Mathlib.TextPositions.{eq_refl}
use fleet_management.Models.Account.{UserRole, User}
use fleet_management.Session.{Db, Ambient, ok}
use fleet_management.Account.{
  Passwords, Tokens, LoginAnswer, second, minute, payload, normalize_email, get_user_by_email,
  new_user, create_user, admit, authenticate, create_access_token, get_current_user, find_account,
  login, home_urls,
}

admit_iff :
    (P : Passwords) (password : String) (u : User) (o : Option User)
    → (admit P password o ≡ some u)
      ↔ ((o ≡ some u) × (P.verify password u.hashed_password ≡ true) × (u.is_active ≡ true))
admit_iff P password u none = ground arith
admit_iff P password u (some v) = elim (Bool-cases (P.verify password v.hashed_password)) [
  | inl fits ↦ elim (Bool-cases v.is_active) [ inl live ↦ ground arith | inr closed ↦ ground arith ]
  | inr wrong ↦ ground arith
]

-- An account is authenticated exactly when it is the one of the address, the password fits its
-- hash, and it is active.
pub authenticate_iff :
    (P : Passwords) (email password : String) (u : User) (db : Db)
    → (authenticate P email password db ≡ some u) ↔ (
        (get_user_by_email P email db ≡ some u)
        × (P.verify password u.hashed_password ≡ true)
        × (u.is_active ≡ true))
unfolding authenticate
authenticate_iff P email password u db = admit_iff P password u (get_user_by_email P email db)

registered :
    (P : Passwords) (salt : ℕ) (email password : String) (u new : User) (us : List User)
    → find? (λ x. str_eq x.email (normalize_email P email)) us ≡ none
    → new.email ≡ normalize_email P email
    → new.hashed_password ≡ P.hash salt password
    → new.is_active ≡ true
    → admit P password (find? (λ x. str_eq x.email (normalize_email P email)) (us ++ new ∷ []))
      ≡ some new
registered P salt email password u new us free address hashed live = ground (
  arith,
  find?-append (λ (x : User). str_eq x.email (normalize_email P email)) us (new ∷ []),
  eq_refl (normalize_email P email),
  P.verify-hash salt password,
)

-- Who has just registered is authenticated by the same address and password.
pub authenticate-create_user :
    (P : Passwords) (env : Ambient) (salt : ℕ) (email password full_name : String) (role : UserRole)
    (phone : Option String) (db : Db) (u : User)
    → (create_user P env salt email password full_name role phone db).0 ≡ ok u
    → authenticate P email password
        (create_user P env salt email password full_name role phone db).1
      ≡ some u
unfolding create_user authenticate get_user_by_email
authenticate-create_user P env salt email password full_name role phone db u done =
    elim (Option-cases (find? (λ x. str_eq x.email (normalize_email P email)) db.users)) [
      | inr (v, taken) ↦ absurd (ground arith)
      | inl free ↦
          let new = new_user P env salt email password full_name role phone in
          let is_new : new ≡ u = cc (rw free at done) in
          rw free
            (registered P salt email password u new db.users free refl refl refl ∙ ap some is_new)
    ]

in_time :
    (start length_of now : ℕ)
    → start ≤ now
    → now + second ≤ start + length_of
    → (start / second * second ≤ now) × (now < (start + length_of) / second * second)
in_time start length_of now issued alive = (omega arith, omega arith)

-- Where an active account is authenticated, the login gives a token that stands for it from its
-- issue until its lifetime is over, the last second left out, while the account's row stays as it
-- is.
pub get_current_user-login :
    (T : Tokens) (P : Passwords) (env : Ambient) (expire_minutes : ℕ) (username password : String)
    (ip_address user_agent : Option String) (u : User) (db later : Db) (now : ℕ)
    → authenticate P username password db ≡ some u
    → find_account u.id later ≡ some u
    → u.is_active ≡ true
    → env.now 1 ≤ now
    → now + second ≤ env.now 1 + expire_minutes * minute
    → (answer : LoginAnswer T) × ((login T P env expire_minutes username password ip_address
          user_agent db).0
        ≡ ok answer)
      × (get_current_user T now answer.access_token later ≡ (ok u, later))
unfolding login get_current_user create_access_token
get_current_user-login T P env expire_minutes username password ip_address user_agent u db later now
      known stands live issued alive =
    let p = payload T (env.now 1) expire_minutes u.id u.role in
    let (after, before) = in_time (env.now 1) (expire_minutes * minute) now issued alive in
    let answer : LoginAnswer T = record {
      access_token = T.encode p;
      role = u.role;
      home_url = home_urls u.role;
    } in
    (
      answer,
      rw known refl,
      rw (T.decode-encode p now after before) (rw (T.parse-print u.id) (rw stands (rw live refl))),
    )
