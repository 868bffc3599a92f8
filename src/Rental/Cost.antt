-- ===== src/Rental/Cost.antt =====
-- The hours that `calculate_cost` of services/rental_service.py bills.
use fleet_management.Prelude.{ℕ, ◌+◌, ◌-◌, ◌*◌, ◌≤◌, ◌<◌, ◌≡◌, ◌↔◌, arith}
use fleet_management.Rental.{hour, billable_hours, calculate_cost}

-- `n` hours are billed: they cover the duration, and no fewer do.
abbrev pub Bills : ℕ → ℕ → ℕ → Type 0
Bills started_at ended_at n =
    (1 ≤ n) × (ended_at ≤ started_at + n * hour) × (1 < n → started_at + (n - 1) * hour < ended_at)

billable_hours-Bills :
    (started_at ended_at : ℕ) → Bills started_at ended_at (billable_hours started_at ended_at)
unfolding billable_hours
billable_hours-Bills started_at ended_at = omega arith

Bills-unique :
    (started_at ended_at m n : ℕ)
    → Bills started_at ended_at m
    → Bills started_at ended_at n
    → m ≡ n
Bills-unique started_at ended_at m n h k = grind arith

-- The hours billed are the fewest, at least one, that cover the time from start to end.
pub billable_hours_lem :
    (started_at ended_at n : ℕ)
    → (n ≡ billable_hours started_at ended_at) ↔ Bills started_at ended_at n
billable_hours_lem started_at ended_at n = (
  λ e. rw e (billable_hours-Bills started_at ended_at),
  λ b. Bills-unique started_at ended_at n _ b (billable_hours-Bills started_at ended_at),
)

-- A rental that ends later costs no less.
pub calculate_cost_mono :
    (started_at ended_at more rate : ℕ)
    → calculate_cost started_at ended_at rate ≤ calculate_cost started_at (ended_at + more) rate
unfolding calculate_cost billable_hours
calculate_cost_mono started_at ended_at more rate = grind arith
