-- ===== src/Models/Account.antt =====
-- The accounts: models/user.py of src/fleet_management.
use fleet_management.Prelude.{ℕ, String, Option, Bool, true, false}

pub data UserRole : Type 0 where
  admin user : UserRole

pub record User : Type 0 where
  pub id : ℕ
  pub email : String
  pub hashed_password : String
  pub full_name : String
  pub role : UserRole
  pub phone : Option String
  pub is_active : Bool
  pub created_at : ℕ
  pub anonymized_at : Option ℕ

abbrev pub role_eq : UserRole → UserRole → Bool
role_eq admin admin = true
role_eq user user = true
role_eq _ _ = false
