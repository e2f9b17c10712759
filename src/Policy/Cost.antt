-- ===== src/Policy/Cost.antt =====
-- aiPolicyCost and aiPolicyCeilRate of internal/modules/ai_policy.go, within int64.
use qgramm.Common.{
  ℕ, ◌+◌, ◌-◌, ◌*◌, ◌/◌, String, ◌||◌, ltb, leb, ◌==◌, if◌then◌else◌, str_eq, Outcome, ok, require,
  ◌>>=◌, ◌>>◌,
}
use qgramm.Policy.Counters.{Usage, rejected}

abbrev pub max_int64 : ℕ
max_int64 = 9223372036854775807

-- The fields of aiPolicyEffect that costs and budgets read; prices are in microunits per million tokens.
pub record Effect : Type 0 where
  pub job : String
  pub action : String
  pub reserve : ℕ
  pub input_price : ℕ
  pub output_price : ℕ

unfoldable pub ceil_rate : ℕ → ℕ → Outcome ℕ
ceil_rate tokens rate =
    if ltb (max_int64 / 2) tokens || ltb (max_int64 / 2) rate
    then rejected "AI usage cost overflow"
    else if (tokens == 0) || (rate == 0)
    then ok 0
    else if ltb ((max_int64 - 999999) / rate) tokens
    then rejected "AI usage cost overflow"
    else ok ((tokens * rate + 999999) / 1000000)

unfoldable pub policy_cost : Effect → Usage → Outcome ℕ
unfolding ceil_rate
policy_cost effect usage = if str_eq effect.action "tool" then ok effect.reserve else (do
  input ← ceil_rate usage.input_tokens effect.input_price
  output ← ceil_rate usage.output_tokens effect.output_price
  require (leb input (max_int64 - output)) 503 "AI usage cost overflow"
  ok (input + output))
