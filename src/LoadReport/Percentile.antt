-- ===== src/LoadReport/Percentile.antt =====
-- `percentile` of loadtest/report.py as a member of the list by its place.
use mathlib.Core.Path.{subst}
use fleet_management.Prelude.{
  ℕ, zero, suc, ◌+◌, ◌≤◌, ◌<◌, ◌≡◌, refl, Bool, some, List, [], ◌∷◌, length, order_by, insert_by,
  count_where, All, leb, ltb, max, if◌then◌else◌, Bool-cases, inl, inr, arith,
}
use fleet_management.LoadReport.{FloatOps, nth, rank_of, percentile}

abbrev same : ℕ → ℕ
same v = v

abbrev IsSorted : List ℕ → Type 0
IsSorted [] = Unit
IsSorted (x ∷ xs) = All (λ y. x ≤ y) xs × IsSorted xs

count-insert_by :
    (p : ℕ → Bool) (x : ℕ) (xs : List ℕ)
    → count_where p (insert_by same x xs) ≡ (if p x then 1 else 0) + count_where p xs
count-insert_by p x [] = refl
count-insert_by p x (y ∷ ys) = ground (arith, count-insert_by p x ys)

count-order_by : (p : ℕ → Bool) (xs : List ℕ) → count_where p (order_by same xs) ≡ count_where p xs
count-order_by p [] = refl
count-order_by p (x ∷ xs) =
    omega (arith, count-insert_by p x (order_by same xs), count-order_by p xs)

insert_by-All :
    (b x : ℕ) (xs : List ℕ) → b ≤ x → All (λ y. b ≤ y) xs → All (λ y. b ≤ y) (insert_by same x xs)
insert_by-All b x [] low h = (low, tt)
insert_by-All b x (y ∷ ys) low h = ground (arith, insert_by-All b x ys low h.1)

smaller_bound : (a b : ℕ) (xs : List ℕ) → a ≤ b → All (λ y. b ≤ y) xs → All (λ y. a ≤ y) xs
smaller_bound a b [] low h = tt
smaller_bound a b (y ∷ ys) low h = (omega (arith, low, h.0), smaller_bound a b ys low h.1)

insert_by-IsSorted : (x : ℕ) (xs : List ℕ) → IsSorted xs → IsSorted (insert_by same x xs)
insert_by-IsSorted x [] h = (tt, tt)
insert_by-IsSorted x (y ∷ ys) h = elim (Bool-cases (leb x y)) [
  | inl before ↦
      let low : x ≤ y = ground (arith, before) in rw before ((low, smaller_bound x y ys low h.0), h)
  | inr behind ↦
      let low : y ≤ x = ground (arith, behind) in
      rw behind (insert_by-All y x ys low h.0, insert_by-IsSorted x ys h.1)
]

order_by-IsSorted : (xs : List ℕ) → IsSorted (order_by same xs)
order_by-IsSorted [] = tt
order_by-IsSorted (x ∷ xs) = insert_by-IsSorted x (order_by same xs) (order_by-IsSorted xs)

nth-All : (b k r : ℕ) (xs : List ℕ) → All (λ y. b ≤ y) xs → nth xs k ≡ some r → b ≤ r
nth-All b k r [] h e = cc e
nth-All b zero r (x ∷ xs) h e = ground (arith, h.0, e)
nth-All b (suc k) r (x ∷ xs) h e = nth-All b k r xs h.1 e

none_below : (r : ℕ) (xs : List ℕ) → All (λ y. r ≤ y) xs → count_where (λ y. ltb y r) xs ≡ 0
none_below r [] h = refl
none_below r (x ∷ xs) h = ground (arith, none_below r xs h.1, h.0)

-- Of a sorted list, more than `k` members are at most the one at `k`, and at most `k` are below it.
nth_counts :
    (k r : ℕ) (xs : List ℕ)
    → IsSorted xs
    → nth xs k ≡ some r
    → (suc k ≤ count_where (λ y. leb y r) xs) × (count_where (λ y. ltb y r) xs ≤ k)
nth_counts k r [] h e = cc e
nth_counts zero r (x ∷ xs) h e =
    let here : x ≡ r = cc e in
    let below = none_below r xs (subst (λ b. All (λ y. b ≤ y) xs) here h.0) in
    ground (arith, here, below)
nth_counts (suc k) r (x ∷ xs) h e =
    let low = nth-All x k r xs h.0 e in
    let rest = nth_counts k r xs h.1 e in ground (arith, low, rest.0, rest.1)

nth_inside : (k : ℕ) (xs : List ℕ) → k < length xs → (r : ℕ) × (nth xs k ≡ some r)
nth_inside k [] h = absurd (omega (arith, h))
nth_inside zero (x ∷ xs) h = (x, refl)
nth_inside (suc k) (x ∷ xs) h = nth_inside k xs (omega (arith, h))

length-insert_by : (x : ℕ) (xs : List ℕ) → length (insert_by same x xs) ≡ suc (length xs)
length-insert_by x [] = refl
length-insert_by x (y ∷ ys) = ground (arith, length-insert_by x ys)

length-order_by : (xs : List ℕ) → length (order_by same xs) ≡ length xs
length-order_by [] = refl
length-order_by (x ∷ xs) = omega (arith, length-insert_by x (order_by same xs), length-order_by xs)

-- Of a list that is not empty, where the float `p / 100 * n` rounds up to at most its length `n`, the
-- percentile is the member at exactly that place by size, the first where it rounds up to 0: at least
-- so many members are at most that large, and fewer are smaller.
pub percentile_lem :
    (O : FloatOps) (values : List ℕ) (p : O.Float)
    → 1 ≤ length values
    → O.ceil (O.multiply (O.divide p (O.float 100)) (O.float (length values))) ≤ length values
    → let r = percentile O values p in
      let place =
        max 1 (O.ceil (O.multiply (O.divide p (O.float 100)) (O.float (length values)))) in
      (place ≤ count_where (λ v. leb v r) values) × (count_where (λ v. ltb v r) values < place)
unfolding percentile
percentile_lem O values p some_values inside =
    let k = rank_of O p (length values) in
    let sorted = order_by same values in
    let (r, found) =
      nth_inside k sorted (omega (arith, some_values, inside, length-order_by values)) in
    let (enough, few) = nth_counts k r sorted (order_by-IsSorted values) found in
    rw found (
      omega (arith, enough, count-order_by (λ v. leb v r) values),
      omega (arith, few, count-order_by (λ v. ltb v r) values),
    )
