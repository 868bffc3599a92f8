-- ===== src/LoadReport/Tests.antt =====
-- The theorems on the figures at a few rows, with fractions for the floats.
use fleet_management.Prelude.{
  ℕ, ◌+◌, ◌-◌, ◌*◌, ◌/◌, ◌≤◌, ◌<◌, [], ◌∷◌, count_where, leb, ltb, arith,
}
use fleet_management.LoadReport.{FloatOps, percentile}
use fleet_management.LoadReport.Percentile.{percentile_lem}

abbrev over : ℕ × ℕ → ℕ × ℕ → ℕ × ℕ
over (a, b) (c, d) = (a * d, b * c)

abbrev times : ℕ × ℕ → ℕ × ℕ → ℕ × ℕ
times (a, b) (c, d) = (a * c, b * d)

abbrev round_up : ℕ × ℕ → ℕ
round_up (a, b) = (a + b - 1) / b

abbrev fractions : FloatOps
fractions = record {
  Float = ℕ × ℕ;
  float = λ n. (n, 1);
  divide = over;
  multiply = times;
  ceil = round_up;
}

percentile_lem_example :
    let r = percentile fractions (30 ∷ 10 ∷ 20 ∷ []) (95, 1) in
    (3 ≤ count_where (λ v. leb v r) (30 ∷ 10 ∷ 20 ∷ []))
    × (count_where (λ v. ltb v r) (30 ∷ 10 ∷ 20 ∷ []) < 3)
percentile_lem_example =
    percentile_lem fractions (30 ∷ 10 ∷ 20 ∷ []) (95, 1) (omega arith) (omega arith)
