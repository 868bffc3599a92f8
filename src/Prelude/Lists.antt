-- ===== src/Prelude/Lists.antt =====
-- Tables as lists of rows: the queries that the services make of them, over Boolean conditions.
use Prim.Native.Nat.{ℕ, suc, ◌+◌, ◌≤◌}
use mathlib.Core.Path.{◌≡◌, refl, subst}
use mathlib.Core.Logic.{◌≢◌, inl, inr}
use mathlib.Core.Bool.{Bool, true, not}
use mathlib.Core.Option.{Option, none, some}
use mathlib.Core.List.{List, [], ◌∷◌, ◌++◌}
use native.Mathlib.Omega.{arith}
use fleet_management.Prelude.Tests.{◌==◌, leb, if◌then◌else◌, Bool-cases}

module _ {ℓ} {A : Type ℓ} where
  abbrev pub length : List A → ℕ
  length [] = 0
  length (x ∷ xs) = suc (length xs)

  -- the first row that meets the condition
  abbrev pub find? : (A → Bool) → List A → Option A
  find? p [] = none
  find? p (x ∷ xs) = if p x then some x else find? p xs

  -- `select ... where`
  abbrev pub select : (A → Bool) → List A → List A
  select p [] = []
  select p (x ∷ xs) = let rest = select p xs in if p x then x ∷ rest else rest

  -- `update ... where`
  abbrev pub update_where : (A → Bool) → (A → A) → List A → List A
  update_where p f [] = []
  update_where p f (x ∷ xs) = (if p x then f x else x) ∷ update_where p f xs

  -- `delete ... where`
  abbrev pub delete_where : (A → Bool) → List A → List A
  delete_where p = select (λ x. not (p x))

  -- `select count(*) ... where`
  abbrev pub count_where : (A → Bool) → List A → ℕ
  count_where p [] = 0
  count_where p (x ∷ xs) = (if p x then 1 else 0) + count_where p xs

  abbrev pub All {κ} : (A → Type κ) → List A → Type κ
  All P [] = Unit
  All P (x ∷ xs) = P x × All P xs

  -- no two rows have one key
  abbrev pub HasUniqueKeys : (A → ℕ) → List A → Type ℓ
  HasUniqueKeys key [] = Unit
  HasUniqueKeys key (x ∷ xs) = (find? (λ y. key y == key x) xs ≡ none) × HasUniqueKeys key xs

  pub count_where-append :
      (p : A → Bool) (xs ys : List A)
      → count_where p (xs ++ ys) ≡ count_where p xs + count_where p ys
  count_where-append p [] ys = omega arith
  count_where-append p (x ∷ xs) ys = omega (arith, count_where-append p xs ys)

  pub find?-append :
      (p : A → Bool) (xs ys : List A)
      → find? p (xs ++ ys) ≡ elim (find? p xs) [ none ↦ find? p ys | some x ↦ some x ]
  find?-append p [] ys = refl
  find?-append p (x ∷ xs) ys = ground (arith, find?-append p xs ys)

  pub find?-satisfies : (p : A → Bool) (xs : List A) (x : A) → find? p xs ≡ some x → p x ≡ true
  find?-satisfies p [] x h = cc
  find?-satisfies p (y ∷ xs) x h = ground (arith, find?-satisfies p xs x)

  -- a row that a query by key finds is counted where it meets the condition
  pub counted :
      (key : A → ℕ) (p : A → Bool) (k : ℕ) (xs : List A) (x : A)
      → find? (λ y. key y == k) xs ≡ some x
      → p x ≡ true
      → 1 ≤ count_where p xs
  counted key p k [] x found meets = cc
  counted key p k (y ∷ xs) x found meets = ground (arith, counted key p k xs x)

  pub length-select : (p : A → Bool) (xs : List A) → length (select p xs) ≡ count_where p xs
  length-select p [] = refl
  length-select p (x ∷ xs) = ground (arith, length-select p xs)

  pub length-update_where :
      (p : A → Bool) (f : A → A) (xs : List A) → length (update_where p f xs) ≡ length xs
  length-update_where p f [] = refl
  length-update_where p f (x ∷ xs) = omega (arith, length-update_where p f xs)

  pub HasUniqueKeys-append :
      (key : A → ℕ) (xs : List A) (y : A)
      → HasUniqueKeys key xs
      → find? (λ x. key x == key y) xs ≡ none
      → HasUniqueKeys key (xs ++ y ∷ [])
  HasUniqueKeys-append key [] y u h = (refl, tt)
  HasUniqueKeys-append key (x ∷ xs) y u h =
      ground
        (arith, find?-append (λ z. key z == key x) xs (y ∷ []), HasUniqueKeys-append key xs y u.1)

  abbrev pub map_option {κ} : {B : Type κ} → (A → B) → Option A → Option B
  map_option f none = none
  map_option f (some x) = some (f x)

  -- An update that no query of this kind tells apart acts on what the query finds.
  pub find?-update :
      (q p : A → Bool) (f : A → A) (xs : List A)
      → ((x : A) → q (f x) ≡ q x)
      → find? q (update_where p f xs) ≡ map_option (λ x. if p x then f x else x) (find? q xs)
  find?-update q p f [] same = refl
  find?-update q p f (x ∷ xs) same = ground (arith, same x, find?-update q p f xs same)

  -- `order_by` an ascending number
  abbrev pub insert_by : (A → ℕ) → A → List A → List A
  insert_by key x [] = x ∷ []
  insert_by key x (y ∷ ys) = if leb (key x) (key y) then x ∷ y ∷ ys else y ∷ insert_by key x ys

  abbrev pub order_by : (A → ℕ) → List A → List A
  order_by key [] = []
  order_by key (x ∷ xs) = insert_by key x (order_by key xs)

-- What an update of the row with one key does to queries by key.
module _ {ℓ} {A : Type ℓ} (key : A → ℕ) (f : A → A) (keeps : (x : A) → key (f x) ≡ key x) where
  abbrev has_key : ℕ → A → Bool
  has_key k x = key x == k

  pub find?-update_self :
      (k : ℕ) (xs : List A) (x : A)
      → find? (has_key k) xs ≡ some x
      → find? (has_key k) (update_where (has_key k) f xs) ≡ some (f x)
  find?-update_self k [] x h = cc
  find?-update_self k (y ∷ xs) x h = ground (arith, keeps y, find?-update_self k xs x)

  pub find?-update_ne :
      (k j : ℕ) (xs : List A)
      → j ≢ k
      → find? (has_key j) (update_where (has_key k) f xs) ≡ find? (has_key j) xs
  find?-update_ne k j [] h = refl
  find?-update_ne k j (y ∷ xs) h = ground (arith, keeps y, find?-update_ne k j xs h)

  pub find?-update_none :
      (k j : ℕ) (xs : List A)
      → find? (has_key j) xs ≡ none
      → find? (has_key j) (update_where (has_key k) f xs) ≡ none
  find?-update_none k j [] h = refl
  find?-update_none k j (y ∷ xs) h = ground (arith, keeps y, find?-update_none k j xs)

  pub HasUniqueKeys-update :
      (k : ℕ) (xs : List A)
      → HasUniqueKeys key xs
      → HasUniqueKeys key (update_where (has_key k) f xs)
  HasUniqueKeys-update k [] h = tt
  HasUniqueKeys-update k (y ∷ xs) h =
      ground (arith, keeps y, find?-update_none k (key y) xs h.0, HasUniqueKeys-update k xs h.1)

  pub update_missing :
      (k : ℕ) (xs : List A) → find? (has_key k) xs ≡ none → update_where (has_key k) f xs ≡ xs
  update_missing k [] h = refl
  update_missing k (y ∷ xs) h = ground (arith, update_missing k xs)

  -- a row that no key names is not touched
  pub count-update_missing :
      (p : A → Bool) (k : ℕ) (xs : List A)
      → find? (has_key k) xs ≡ none
      → count_where p (update_where (has_key k) f xs) ≡ count_where p xs
  count-update_missing p k [] h = refl
  count-update_missing p k (y ∷ xs) h = ground (arith, count-update_missing p k xs)

  -- under unique keys one row is exchanged
  pub count-update :
      (p : A → Bool) (k : ℕ) (xs : List A) (x : A)
      → HasUniqueKeys key xs
      → find? (has_key k) xs ≡ some x
      → count_where p (update_where (has_key k) f xs) + (if p x then 1 else 0)
        ≡ count_where p xs + (if p (f x) then 1 else 0)
  count-update p k [] x u h = cc
  count-update p k (y ∷ xs) x u h = elim (Bool-cases (key y == k)) [
    | inl found ↦
        let e : key y ≡ k = ground arith in
        let alone : find? (has_key k) xs ≡ none = subst (λ j. find? (has_key j) xs ≡ none) e u.0 in
        ground (arith, found, count-update_missing p k xs alone)
    | inr later ↦ ground (arith, later, count-update p k xs x u.1)
  ]
