-- ===== src/System/Columns.antt =====
-- The unique columns `users.email` and `renters.license_number` when a row is inserted (user_service,
-- api/renters.py and api/privacy.py of src/fleet_management).
use fleet_management.Prelude.{
  ℕ, String, ◌≡◌, refl, Bool, true, false, ◌&&◌, Option, none, List, [], ◌∷◌, ◌++◌, map, find?,
  find?-append, str_eq, Option-cases, inl, inr, arith,
}
use fleet_management.Models.Fleet.{Renter}
use fleet_management.Models.Account.{User, UserRole}
use fleet_management.Session.{Db, Ambient, commit_checked, commit_if, pure, ◌>>◌}
use fleet_management.Account.{Passwords, normalize_email, new_user, create_user}
use fleet_management.Registration.{license_free}
use fleet_management.Erasure.{all_distinct, unique_columns_hold}

all_distinct-append :
    (ss : List String) (y : String)
    → all_distinct ss ≡ true
    → find? (λ s. str_eq s y) ss ≡ none
    → all_distinct (ss ++ y ∷ []) ≡ true
all_distinct-append [] y distinct free = refl
all_distinct-append (x ∷ xs) y distinct free =
    ground (arith, find?-append (str_eq x) xs (y ∷ []), all_distinct-append xs y)

find?-map {ℓ} :
    {A : Type ℓ} (f : A → String) (p : String → Bool) (xs : List A)
    → find? (λ x. p (f x)) xs ≡ none
    → find? p (map f xs) ≡ none
find?-map f p [] h = refl
find?-map f p (x ∷ xs) h = ground (arith, find?-map f p xs)

map-append_one {ℓ} :
    {A : Type ℓ} (f : A → String) (xs : List A) (y : A)
    → map f (xs ++ y ∷ []) ≡ map f xs ++ f y ∷ []
map-append_one f [] y = refl
map-append_one f (x ∷ xs) y = cc (map-append_one f xs y)

distinct_insert {ℓ} :
    {A : Type ℓ} (f : A → String) (xs : List A) (y : A)
    → all_distinct (map f xs) ≡ true
    → find? (λ x. str_eq (f x) (f y)) xs ≡ none
    → all_distinct (map f (xs ++ y ∷ [])) ≡ true
distinct_insert f xs y distinct free =
    rw (map-append_one f xs y)
      (all_distinct-append (map f xs) (f y) distinct (find?-map f (λ s. str_eq s (f y)) xs free))

and_parts : (a b : Bool) → (a && b) ≡ true → (a ≡ true) × (b ≡ true)
and_parts a b h = ground arith

insert_user :
    (db : Db) (u : User)
    → unique_columns_hold db ≡ true
    → find? (λ x. str_eq x.email u.email) db.users ≡ none
    → unique_columns_hold (record db { users = db.users ++ u ∷ [] }) ≡ true
unfolding unique_columns_hold
insert_user db u unique free =
    let (emails, licenses) = and_parts _ _ unique in
    rw (distinct_insert (λ (x : User). x.email) db.users u emails free) licenses

pub insert_renter :
    (db : Db) (r : Renter)
    → unique_columns_hold db ≡ true
    → find? (λ x. str_eq x.license_number r.license_number) db.renters ≡ none
    → unique_columns_hold (record db { renters = db.renters ++ r ∷ [] }) ≡ true
unfolding unique_columns_hold
insert_renter db r unique free =
    let emails_of = all_distinct (map (λ (u : User). u.email) db.users) in
    let licenses_of = all_distinct (map (λ (x : Renter). x.license_number) db.renters) in
    let (emails, licenses) = and_parts emails_of licenses_of unique in
    rw emails (distinct_insert (λ (x : Renter). x.license_number) db.renters r licenses free)

pub create_user-unique_columns_hold :
    (P : Passwords) (env : Ambient) (salt : ℕ) (email password full_name : String) (role : UserRole)
    (phone : Option String) (db : Db)
    → unique_columns_hold db ≡ true
    → unique_columns_hold (create_user P env salt email password full_name role phone db).1 ≡ true
unfolding create_user
create_user-unique_columns_hold P env salt email password full_name role phone db unique =
    elim (Option-cases (find? (λ u. str_eq u.email (normalize_email P email)) db.users)) [
      | inl free ↦
          rw free
            (insert_user db (new_user P env salt email password full_name role phone) unique free)
      | inr (u, taken) ↦ rw taken unique
    ]

-- A commit that the database may refuse keeps what its change keeps where it is not refused.
pub commit_checked-keeps :
    {A : Type 0} (Q : Db → Type 0) (holds : Db → Bool) (change : Db → Db) (a : A) (db : Db)
    → (holds db ≡ true → Q (change db))
    → Q db
    → Q ((commit_checked holds change >> pure a) db).1
commit_checked-keeps {A} Q holds change a db changed same = by_test (holds db) changed
  where
    by_test : (b : Bool) → (b ≡ true → Q (change db)) → Q ((commit_if b change >> pure a) db).1
    by_test true changed = changed refl
    by_test false changed = same

pub license_unused :
    (license_number : String) (db : Db)
    → license_free license_number db ≡ true
    → find? (λ r. str_eq r.license_number license_number) db.renters ≡ none
license_unused license_number db free = ground (arith, free)
