-- ===== src/LoadReport/Buckets.antt =====
-- Each row of a load test is in one bucket: `buckets` of loadtest/report.py.
use fleet_management.Prelude.{
  ℕ, zero, suc, ◌+◌, ◌-◌, ◌/◌, ◌≤◌, ◌≡◌, refl, ◌∙◌, ◌&&◌, List, [], ◌∷◌, count_where, length-select,
  leb, ltb, if◌then◌else◌, Option, arith,
}
use fleet_management.LoadReport.{
  FloatOps, Row, Bucket, bucket_seconds, in_bucket, bucket_count, buckets_from, buckets, summarize,
}

-- all requests that the buckets count
abbrev pub total_requests : List Bucket → ℕ
total_requests [] = 0
total_requests (b ∷ bs) = b.stats.requests + total_requests bs

-- the rows of the buckets from `index` on
abbrev in_buckets : ℕ → List Row → ℕ → ℕ → ℕ
in_buckets start rows index zero = 0
in_buckets start rows index (suc left) =
    count_where (in_bucket start index) rows + in_buckets start rows (suc index) left

total_requests-buckets_from :
    (O : FloatOps) (rows : List Row) (vus : ℕ → Option ℕ) (start index left : ℕ)
    → total_requests (buckets_from O rows vus start index left) ≡ in_buckets start rows index left
unfolding summarize
total_requests-buckets_from O rows vus start index zero = refl
total_requests-buckets_from O rows vus start index (suc left) = omega (
  arith,
  length-select (in_bucket start index) rows,
  total_requests-buckets_from O rows vus start (suc index) left,
)

-- one row, if its index is among the buckets
abbrev hit : ℕ → ℕ → ℕ → Row → ℕ
hit start index left r =
    if leb start r.ts
      && leb index ((r.ts - start) / bucket_seconds)
      && ltb ((r.ts - start) / bucket_seconds) (index + left)
    then 1
    else 0

in_buckets-cons :
    (start : ℕ) (r : Row) (rows : List Row) (index left : ℕ)
    → in_buckets start (r ∷ rows) index left
      ≡ hit start index left r + in_buckets start rows index left
in_buckets-cons start r rows index zero = ground arith
in_buckets-cons start r rows index (suc left) =
    ground (arith, in_buckets-cons start r rows (suc index) left)

in_buckets_none : (start index left : ℕ) → in_buckets start [] index left ≡ 0
in_buckets_none start index zero = refl
in_buckets_none start index (suc left) = omega (arith, in_buckets_none start (suc index) left)

all_hit :
    (start left : ℕ) (rows : List Row)
    → bucket_count start rows ≤ left
    → in_buckets start rows 0 left ≡ count_where (λ r. leb start r.ts) rows
all_hit start left [] h = in_buckets_none start 0 left
all_hit start left (r ∷ rows) h =
    ground (arith, in_buckets-cons start r rows 0 left, all_hit start left rows, h)

-- The buckets count each row that is not before the start once: their requests add up to the number
-- of those rows.
pub total_requests-buckets :
    (O : FloatOps) (rows : List Row) (vus : ℕ → Option ℕ) (start : ℕ)
    → total_requests (buckets O rows vus start) ≡ count_where (λ r. leb start r.ts) rows
unfolding buckets
total_requests-buckets O rows vus start =
    total_requests-buckets_from O rows vus start 0 (bucket_count start rows)
    ∙ all_hit start (bucket_count start rows) rows (omega arith)
