-- ===== src/Account.antt =====
-- Accounts: services/user_service.py, security.py, auth.py and the login of api/auth.py, all of
-- src/fleet_management. Hashing and JWT are parameters, and so are the case and space tables of
-- texts. The dummy hash that is verified for an unknown address only takes time.
pub mod Login
pub mod Lockout
pub mod Command
pub mod Samples
mod Tests
use fleet_management.Prelude.{
  ℕ, ◌+◌, ◌*◌, ◌/◌, ◌≤◌, ◌<◌, String, ◌≡◌, Bool, true, false, not, ◌&&◌, ◌||◌, Option, none, some,
  List, [], ◌∷◌, ◌++◌, find?, is_some, ◌==◌, if◌then◌else◌, str_eq,
}
use fleet_management.Models.Account.{UserRole, User, role_eq}
use fleet_management.Session.{
  Db, users, Ambient, Error, email_already_registered, http_exception, Result, ok, err, Action,
  pure, raise, raise_if, or_raise, gets, ◌>>=◌, ◌>>◌,
}
use fleet_management.Audit.{record_activity}

-- `str.strip` and `str.lower`, and `pwdlib`: hashing with a random salt, and verifying.
pub record Passwords : Type 0 where
  pub strip : String → String
  pub lower : String → String
  pub hash : ℕ → String → String
  pub verify : String → String → Bool
  pub verify-hash : (salt : ℕ) (password : String) → verify password (hash salt password) ≡ true

-- The claims of a token. A JWT counts its moments in whole seconds.
pub record Payload : Type 0 where
  pub sub : String
  pub role : UserRole
  pub iat : ℕ
  pub exp : ℕ

abbrev pub second : ℕ
second = 1_000_000

-- `jwt.encode` and `jwt.decode` with the key of the settings. A decoding, at a moment, gives back
-- what was encoded from its issue until before its expiry. `str` and `int` are beside them.
pub record Tokens : Type 1 where
  pub Token : Type 0
  pub print_int : ℕ → String
  pub parse_int : String → Option ℕ
  pub encode : Payload → Token
  pub decode : ℕ → Token → Option Payload
  pub parse-print : (n : ℕ) → parse_int (print_int n) ≡ some n
  pub decode-encode :
      (p : Payload) (now : ℕ)
      → p.iat * second ≤ now
      → now < p.exp * second
      → decode now (encode p) ≡ some p

-- `settings.access_token_expire_minutes`, as a time
abbrev pub minute : ℕ
minute = 60 * second

-- `HOME_URLS`
abbrev pub home_urls : UserRole → String
home_urls UserRole.admin = "/home/admin"
home_urls UserRole.user = "/home/user"

module _ (P : Passwords) where
  unfoldable pub normalize_email : String → String
  normalize_email email = P.lower (P.strip email)

  unfoldable pub get_user_by_email : String → Db → Option User
  get_user_by_email email db = find? (λ u. str_eq u.email (normalize_email email)) db.users

  abbrev pub new_user :
      Ambient → (salt : ℕ) → String → String → String → UserRole → Option String → User
  new_user env salt email password full_name role phone = record {
    id = env.new_id users 0;
    email = normalize_email email;
    hashed_password = P.hash salt password;
    full_name = full_name;
    role = role;
    phone = phone;
    is_active = true;
    created_at = env.now 0;
    anonymized_at = none;
  }

  -- The unique column `users.email`; the refused commit is rolled back.
  unfoldable pub create_user :
      Ambient → (salt : ℕ) → String → String → String → UserRole → Option String → Action User
  unfolding get_user_by_email
  create_user env salt email password full_name role phone db =
      if is_some (get_user_by_email email db)
      then (err (email_already_registered (normalize_email email)), db)
      else (
        ok (new_user env salt email password full_name role phone),
        record db {
          users = db.users ++ new_user env salt email password full_name role phone ∷ [];
        },
      )

  abbrev pub admit : String → Option User → Option User
  admit password none = none
  admit password (some u) =
      if not (P.verify password u.hashed_password) || not u.is_active then none else some u

  unfoldable pub authenticate : String → String → Db → Option User
  unfolding get_user_by_email
  authenticate email password db = admit password (get_user_by_email email db)

abbrev pub find_account : ℕ → Db → Option User
find_account user_id db = find? (λ u. u.id == user_id) db.users

abbrev pub active_only : Option User → Result User
active_only none = err (http_exception 401)
active_only (some u) = if not u.is_active then err (http_exception 401) else ok u

abbrev pub user_of : Option ℕ → Db → Result User
user_of none db = err (http_exception 401)
user_of (some user_id) db = active_only (find_account user_id db)

module _ (T : Tokens) where
  abbrev pub payload : ℕ → ℕ → ℕ → UserRole → Payload
  payload now expire_minutes user_id role = record {
    sub = T.print_int user_id;
    role = role;
    iat = now / second;
    exp = (now + expire_minutes * minute) / second;
  }

  unfoldable pub create_access_token : ℕ → ℕ → ℕ → UserRole → T.Token
  create_access_token now expire_minutes user_id role =
      T.encode (payload now expire_minutes user_id role)

  abbrev pub subject_of : Option Payload → Option ℕ
  subject_of none = none
  subject_of (some p) = T.parse_int p.sub

  -- `none` is `InvalidTokenError`.
  unfoldable pub decode_access_token : ℕ → T.Token → Option ℕ
  decode_access_token now token = subject_of (T.decode now token)

  unfoldable pub get_current_user : ℕ → T.Token → Action User
  unfolding decode_access_token
  get_current_user now token db = (user_of (decode_access_token now token) db, db)

  pub record LoginAnswer : Type 0 where
    pub access_token : T.Token
    pub role : UserRole
    pub home_url : String

  -- The answer of a login, and the row in the activity history.
  abbrev pub login_as :
      Ambient → ℕ → Option String → Option String → Option User → Action LoginAnswer
  login_as env expire_minutes ip_address user_agent none db = (err (http_exception 401), db)
  login_as env expire_minutes ip_address user_agent (some u) db =
      (do
        record_activity env u.id "login" ip_address user_agent
        pure (record {
          access_token = create_access_token (env.now 1) expire_minutes u.id u.role;
          role = u.role;
          home_url = home_urls u.role;
        }))
        db

  unfoldable pub login :
      Passwords → Ambient → ℕ → String → String → Option String → Option String → Action LoginAnswer
  unfolding record_activity authenticate
  login P env expire_minutes username password ip_address user_agent db =
      login_as env expire_minutes ip_address user_agent (authenticate P username password db) db

abbrev pub has_role : UserRole → List UserRole → Bool
has_role role [] = false
has_role role (r ∷ rs) = role_eq role r || has_role role rs

-- The checker of `require_roles`, for a user that `get_current_user` gave.
unfoldable pub require_roles : List UserRole → User → Result User
require_roles roles u = if has_role u.role roles then ok u else err (http_exception 403)
