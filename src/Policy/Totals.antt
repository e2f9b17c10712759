-- ===== src/Policy/Totals.antt =====
-- Totals of reported tokens: the bounded sum, and that caches stay a part of the input.
use qgramm.Common.{
  ℕ, ◌+◌, ◌≤◌, ◌≡◌, String, Bool, true, ◌||◌, none, some, List, [], ◌∷◌, arith, subst, ok-injective,
  leb, if◌then◌else◌, ok, >>=-eq-ok,
}
use qgramm.Policy.{max_usage_counter, Json, Usage, Seen, usage_add, counter, read_anthropic}
use qgramm.Policy.Counters.{total_tokens, value_or}

abbrev pub sum : List ℕ → ℕ
sum [] = 0
sum (v ∷ vs) = v + sum vs

-- The guarded sum is the sum where that is within the limit, and an error elsewhere, as long as the
-- running total started within it.
pub usage_add-sum :
    (total : ℕ) (vs : List ℕ)
    → total ≤ max_usage_counter
    → usage_add total vs
      ≡ (if leb (total + sum vs) max_usage_counter then some (total + sum vs) else none)
unfolding usage_add
usage_add-sum total [] h = ground arith
usage_add-sum total (v ∷ vs) h = ground (arith, usage_add-sum (total + v) vs)

-- Tokens read from and written to the cache are part of the input tokens, once those are known.
abbrev pub IsInclusive : Usage → Type 0
IsInclusive u = u.input_known ≡ true → u.cache_read_tokens + u.cache_write_tokens ≤ u.input_tokens

module _ {R : Type 0} (j : Json R) where
  total_tokens-inclusive :
      (input read write : Seen) (prior : Usage) (total : ℕ)
      → IsInclusive prior
      → prior.input_known || input.seen ≡ true
      → total_tokens j input read write prior ≡ ok total
      → value_or j read prior.cache_read_tokens + value_or j write prior.cache_write_tokens ≤ total
  unfolding usage_add
  total_tokens-inclusive input read write prior total inc known h = ground (arith, inc)

  -- A report in Anthropic's format, which counts the caches apart, keeps them a part of the total.
  pub read_anthropic-IsInclusive :
      (fields : List (String × R)) (prior : Usage) (final : Bool) {u : Usage}
      → IsInclusive prior
      → read_anthropic j fields prior final ≡ ok u
      → IsInclusive u
  unfolding read_anthropic usage_add
  read_anthropic-IsInclusive fields prior final {u} inc h known =
      let (input, _, h1) = >>=-eq-ok (counter j fields "input_tokens") _ h in
      let (output, _, h2) = >>=-eq-ok (counter j fields "output_tokens") _ h1 in
      let (read, _, h3) = >>=-eq-ok (counter j fields "cache_read_input_tokens") _ h2 in
      let (write, _, h4) = >>=-eq-ok (counter j fields "cache_creation_input_tokens") _ h3 in
      let (total, t, h5) = >>=-eq-ok (total_tokens j input read write prior) _ h4 in
      subst IsInclusive (ok-injective _ _ h5)
        (λ k. total_tokens-inclusive input read write prior total inc k t) known
