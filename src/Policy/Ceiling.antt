-- ===== src/Policy/Ceiling.antt =====
-- The cost of tokens at a rate is the exact ceiling, and no step of it overflows int64.
use qgramm.Common.{ℕ, ◌+◌, ◌-◌, ◌*◌, ◌/◌, ◌≤◌, ◌<◌, ◌≡◌, arith, ok}
use native.Mathlib.Nat.{div-add-mod', mul-le-mul_right}
use qgramm.Policy.{max_int64, ceil_rate}

-- The guard against overflow says that the product stays below the limit.
product_bound : (limit t r : ℕ) → t ≤ limit / r → t * r ≤ limit
product_bound limit t r h = omega (arith, mul-le-mul_right r h, div-add-mod' limit r)

-- The rounding of aiPolicyCeilRate.
rounded_up :
    (n : ℕ)
    → (n ≤ (n + 999999) / 1000000 * 1000000) × ((n + 999999) / 1000000 * 1000000 < n + 1000000)
rounded_up n = omega arith

-- What a cost that is returned says: it is the smallest number of microunits that pays for the
-- tokens at a price for a million, and its computation stayed within int64.
pub ceil_rate-least :
    (tokens rate cost : ℕ)
    → ceil_rate tokens rate ≡ ok cost
    → (tokens * rate ≤ cost * 1000000)
      × (cost * 1000000 < tokens * rate + 1000000)
      × (tokens * rate + 999999 ≤ max_int64)
unfolding ceil_rate
ceil_rate-least tokens rate cost h =
    ground (arith, product_bound (max_int64 - 999999) tokens rate, rounded_up (tokens * rate))
