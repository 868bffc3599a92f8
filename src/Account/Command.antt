-- ===== src/Account/Command.antt =====
-- The first administrator, from the command line: src/fleet_management/cli.py. The check of an
-- address is pydantic's.
use fleet_management.Prelude.{
  ℕ, suc, ◌≤◌, String, ◌≡◌, refl, Bool, true, false, Option, none, some, ltb, if◌then◌else◌, str_eq,
  Option-cases, inl, inr, ap, sym, ◌∙◌, arith,
}
use fleet_management.Models.Account.{User, UserRole}
use fleet_management.Session.{Db, Ambient, Error, Result, ok, err}
use fleet_management.Account.{Passwords, get_user_by_email, new_user, create_user, authenticate}
use fleet_management.Account.Login.{authenticate-create_user}

abbrev pub min_password_length : ℕ
min_password_length = 8

abbrev pub password_length : String → ℕ
password_length String.[] = 0
password_length (String.◌∷◌ c s) = suc (password_length s)

-- How the command ends: with a new account, or with an error and why.
pub data Exit : Type 0 where
  created : User → Exit
  invalid_email : String → Exit
  short_password : Exit
  failed : Error → Exit

-- `os.environ.get("ADMIN_PASSWORD") or getpass.getpass(...)`
abbrev pub password_from : Option String → String → String
password_from none typed = typed
password_from (some password) typed = if str_eq password "" then typed else password

abbrev pub exit_of : Result User × Db → Exit × Db
exit_of (ok u, db) = (created u, db)
exit_of (err e, db) = (failed e, db)

module _ (P : Passwords) (env : Ambient) (salt : ℕ) where
  abbrev pub create_valid : Bool → String → String → String → Db → Exit × Db
  create_valid true email password full_name db = (short_password, db)
  create_valid false email password full_name db =
      exit_of (create_user P env salt email password full_name UserRole.admin none db)

  abbrev pub create_for : Option String → String → String → String → Db → Exit × Db
  create_for none given password full_name db = (invalid_email given, db)
  create_for (some email) given password full_name db =
      create_valid (ltb (password_length password) min_password_length) email password full_name db

  unfoldable pub create_admin_command :
      (validate_email : String → Option String)
      → String
      → String
      → Option String
      → String
      → Db
      → Exit × Db
  create_admin_command validate_email email full_name in_environment typed db =
      create_for (validate_email email) email (password_from in_environment typed) full_name db

  -- An account that the command made, with what it was made of.
  pub record Bootstrapped (email password : String) (after : Db) (u : User) : Type 0 where
    pub long_enough : 8 ≤ password_length password
    pub is_admin : u.role ≡ UserRole.admin
    pub logs_in : authenticate P email password after ≡ some u

  created_admin :
      (email password full_name : String) (db after : Db) (u : User)
      → create_user P env salt email password full_name UserRole.admin none db ≡ (ok u, after)
      → u.role ≡ UserRole.admin
  unfolding create_user fleet_management.Account.get_user_by_email
  created_admin email password full_name db after u e =
      elim (Option-cases (get_user_by_email P email db)) [
        | inr (v, taken) ↦ absurd (ground arith)
        | inl free ↦
            let is_new : new_user P env salt email password full_name UserRole.admin none ≡ u =
              cc (rw free at e) in
            ap (λ v. v.role) (sym is_new)
      ]

  created_of :
      (r : Result User × Db) (u : User) → (exit_of r).0 ≡ created u → r ≡ (ok u, (exit_of r).1)
  created_of (ok v, db) u done = ground arith
  created_of (err e, db) u done = absurd (ground arith)

  created_valid :
      (short : Bool) (email password full_name : String) (db : Db) (u : User)
      → ltb (password_length password) min_password_length ≡ short
      → (create_valid short email password full_name db).0 ≡ created u
      → Bootstrapped email password (create_valid short email password full_name db).1 u
  created_valid true email password full_name db u short done = absurd (ground arith)
  created_valid false email password full_name db u long done =
      let made = create_user P env salt email password full_name UserRole.admin none db in
      let same : made ≡ (ok u, (exit_of made).1) = created_of made u done in
      record {
        long_enough = ground arith;
        is_admin = created_admin email password full_name db (exit_of made).1 u same;
        logs_in =
            ap (λ r. authenticate P email password r.1) (sym same)
            ∙ (authenticate-create_user P env salt email password full_name UserRole.admin none db u
                (ap (λ r. r.0) same));
      }

  created_for :
      (valid : Option String) (given password full_name : String) (db : Db) (u : User)
      → (create_for valid given password full_name db).0 ≡ created u
      → (email : String) × (valid ≡ some email)
        × Bootstrapped email password (create_for valid given password full_name db).1 u
  created_for none given password full_name db u done = absurd (ground arith)
  created_for (some email) given password full_name db u done = (
    email,
    refl,
    created_valid (ltb (password_length password) min_password_length) email password full_name db u
        refl done,
  )

  -- The command makes an account only where the address is valid and the password has at least
  -- eight characters, and then it is an administrator's, who logs in with that address and password.
  pub create_admin_command_lem :
      (validate_email : String → Option String) (email full_name : String)
      (in_environment : Option String) (typed : String) (db : Db) (u : User)
      → let done = create_admin_command validate_email email full_name in_environment typed db in
        done.0 ≡ created u
        → (valid : String) × (validate_email email ≡ some valid)
          × Bootstrapped valid (password_from in_environment typed) done.1 u
  unfolding create_admin_command
  create_admin_command_lem validate_email email full_name in_environment typed db u done =
      created_for (validate_email email) email (password_from in_environment typed) full_name db u
        done
