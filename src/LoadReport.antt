-- ===== src/LoadReport.antt =====
-- The figures of a load test: loadtest/report.py. Durations are whole numbers of one unit, a ratio
-- is its two parts, and the CSV reader has made numbers of the texts.
pub mod Percentile
pub mod Buckets
mod Tests
use fleet_management.Prelude.{
  ℕ, zero, suc, ◌+◌, ◌-◌, ◌*◌, ◌/◌, max, min, String, Bool, true, false, ◌&&◌, Option, none, some,
  List, [], ◌∷◌, ◌++◌, map, length, select, order_by, leb, ◌==◌, str_eq, if◌then◌else◌,
}

abbrev pub bucket_seconds : ℕ
bucket_seconds = 5

abbrev pub nth : List ℕ → ℕ → Option ℕ
nth [] index = none
nth (x ∷ xs) zero = some x
nth (x ∷ xs) (suc index) = nth xs index

-- Python's floats, as far as `percentile` uses them: the float of an integer, division,
-- multiplication, and `math.ceil` where the float is not negative.
pub record FloatOps : Type 1 where
  pub Float : Type 0
  pub float : ℕ → Float
  pub divide : Float → Float → Float
  pub multiply : Float → Float → Float
  pub ceil : Float → ℕ

-- `max(math.ceil(p / 100 * len(ordered)) - 1, 0)`; subtraction stops at 0
abbrev pub rank_of : (O : FloatOps) → O.Float → ℕ → ℕ
rank_of O p count = O.ceil (O.multiply (O.divide p (O.float 100)) (O.float count)) - 1

abbrev pub or_zero : Option ℕ → ℕ
or_zero none = 0
or_zero (some n) = n

-- The code raises `IndexError` where the rank is behind the list, which a `p` above 100 can do.
unfoldable pub percentile : (O : FloatOps) → List ℕ → O.Float → ℕ
percentile O values p = or_zero (nth (order_by (λ v. v) values) (rank_of O p (length values)))

-- A row of the k6 output.
pub record CsvRow : Type 0 where
  pub metric_name : String
  pub timestamp : ℕ
  pub name : String
  pub metric_value : ℕ

pub record Duration : Type 0 where
  pub ts : ℕ
  pub name : String
  pub ms : ℕ

pub record Row : Type 0 where
  pub ts : ℕ
  pub name : String
  pub ms : ℕ
  pub failed : ℕ

-- What the loop over the rows has read.
pub record Loaded : Type 0 where
  pub durations : List Duration
  pub failures : List ℕ
  pub vus : ℕ → Option ℕ

abbrev pub set_vus : ℕ → ℕ → (ℕ → Option ℕ) → ℕ → Option ℕ
set_vus ts value vus t = if t == ts then some value else vus t

abbrev pub read_row : CsvRow → Loaded → Loaded
read_row row l =
    if str_eq row.metric_name "vus"
    then record l { vus = set_vus row.timestamp row.metric_value l.vus }
    else if str_eq row.name "setup"
    then l
    else if str_eq row.metric_name "http_req_duration"
    then (let d : Duration = record {
      ts = row.timestamp;
      name = row.name;
      ms = row.metric_value;
    } in
        record l { durations = l.durations ++ d ∷ [] })
    else if str_eq row.metric_name "http_req_failed"
    then record l { failures = l.failures ++ row.metric_value ∷ [] }
    else l

abbrev pub read_rows : List CsvRow → Loaded → Loaded
read_rows [] l = l
read_rows (row ∷ rows) l = read_rows rows (read_row row l)

-- `zip(..., strict=True)` behind the comparison of the lengths, whose `ValueError` is `none`
abbrev pub pair_up : List Duration → List ℕ → Option (List Row)
pair_up [] [] = some []
pair_up [] (f ∷ fs) = none
pair_up (d ∷ ds) [] = none
pair_up (d ∷ ds) (f ∷ fs) = elim (pair_up ds fs) as (λ _. Option (List Row)) [
  | none ↦ none
  | some rows ↦ some (record { ts = d.ts; name = d.name; ms = d.ms; failed = f } ∷ rows)
]

unfoldable pub load_k6 : List CsvRow → Option (List Row) × (ℕ → Option ℕ)
load_k6 rows =
    let l = read_rows rows (record { durations = []; failures = []; vus = λ t. none }) in
    (pair_up l.durations l.failures, l.vus)

-- A quotient by its two parts; `0` is `(0, 1)`.
abbrev pub Ratio : Type 0
Ratio = ℕ × ℕ

abbrev pub ratio : ℕ → ℕ → Ratio
ratio n d = if d == 0 then (0, 1) else (n, d)

abbrev pub sum : List ℕ → ℕ
sum [] = 0
sum (x ∷ xs) = x + sum xs

-- `min(..., default=0)` and `max(..., default=0)`
abbrev pub minimum : List ℕ → ℕ
minimum [] = 0
minimum (x ∷ []) = x
minimum (x ∷ y ∷ ys) = min x (minimum (y ∷ ys))

abbrev pub maximum : List ℕ → ℕ
maximum [] = 0
maximum (x ∷ xs) = max x (maximum xs)

pub record Stats : Type 0 where
  pub requests : ℕ
  pub rps : Ratio
  pub avg : Ratio
  pub min_ms : ℕ
  pub max_ms : ℕ
  pub p95 : ℕ
  pub errors : Ratio

unfoldable pub summarize : FloatOps → List Row → ℕ → Stats
summarize O rows seconds =
    let durations = map (λ (r : Row). r.ms) rows in
    record {
      requests = length rows;
      rps = ratio (length rows) seconds;
      avg = ratio (sum durations) (length durations);
      min_ms = minimum durations;
      max_ms = maximum durations;
      p95 = percentile O durations (O.float 95);
      errors = ratio (100 * sum (map (λ (r : Row). r.failed) rows)) (length rows);
    }

pub record Bucket : Type 0 where
  pub stats : Stats
  pub t : ℕ
  pub vus : ℕ
  pub errors_per_s : Ratio

-- A row before `start` has a negative index, which no bucket has.
abbrev pub in_bucket : ℕ → ℕ → Row → Bool
in_bucket start index r = leb start r.ts && (r.ts - start) / bucket_seconds == index

-- `max(grouped, default=-1) + 1`
abbrev pub bucket_count : ℕ → List Row → ℕ
bucket_count start [] = 0
bucket_count start (r ∷ rows) =
    max (if leb start r.ts then suc ((r.ts - start) / bucket_seconds) else 0)
      (bucket_count start rows)

-- the values at `count` seconds from `t` on
abbrev pub window : (ℕ → Option ℕ) → ℕ → ℕ → List ℕ
window vus t zero = []
window vus t (suc count) =
    let rest = window vus (suc t) count in
    elim (vus t) as (λ _. List ℕ) [ none ↦ rest | some v ↦ v ∷ rest ]

abbrev pub bucket : FloatOps → List Row → (ℕ → Option ℕ) → ℕ → ℕ → Bucket
bucket O rows vus start index =
    let items = select (in_bucket start index) rows in
    record {
      stats = summarize O items bucket_seconds;
      t = index * bucket_seconds;
      vus = maximum (window vus (start + index * bucket_seconds) bucket_seconds);
      errors_per_s = ratio (sum (map (λ (r : Row). r.failed) items)) bucket_seconds;
    }

abbrev pub buckets_from : FloatOps → List Row → (ℕ → Option ℕ) → ℕ → ℕ → ℕ → List Bucket
buckets_from O rows vus start index zero = []
buckets_from O rows vus start index (suc left) =
    bucket O rows vus start index ∷ buckets_from O rows vus start (suc index) left

unfoldable pub buckets : FloatOps → List Row → (ℕ → Option ℕ) → ℕ → List Bucket
buckets O rows vus start = buckets_from O rows vus start 0 (bucket_count start rows)
