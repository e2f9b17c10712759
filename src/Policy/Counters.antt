-- ===== src/Policy/Counters.antt =====
-- The counters that providers report: internal/modules/ai_policy_usage.go. An error is not an
-- APIError here; what is returned beside it is not read.
use qgramm.Common.{
  ℕ, ◌+◌, ◌-◌, ◌*◌, String, Bool, true, false, not, ◌&&◌, ◌||◌, Option, none, some, List, [], ◌∷◌,
  ltb, leb, ◌==◌, if◌then◌else◌, find, any_row, str_eq, Outcome, ok, fail, require, row_or, ◌>>=◌,
  ◌>>◌,
}

abbrev pub rejected {ℓ} : {A : Type ℓ} → String → Outcome A
rejected text = fail 503 text

abbrev pub max_usage_counter : ℕ
max_usage_counter = 10000000

-- What encoding/json makes of a value: the bytes of a number, something else, no JSON value, or one
-- with more text after it.
pub data Decoded : Type 0 where
  number : List ℕ → Decoded
  other malformed trailing : Decoded

-- encoding/json on the raw values R: the value, and the fields of an object (none: no object, or null).
pub record Json (R : Type 0) : Type 0 where
  pub decode : R → Decoded
  pub fields : R → Option (List (String × R))

pub record Usage : Type 0 where
  pub input_tokens : ℕ
  pub output_tokens : ℕ
  pub cache_read_tokens : ℕ
  pub cache_write_tokens : ℕ
  pub known : Bool
  pub input_known : Bool
  pub output_known : Bool

-- A counter and whether it was there.
pub record Seen : Type 0 where
  pub value : ℕ
  pub seen : Bool

-- strconv.ParseInt on digits, from the value of those already read.
abbrev pub digits_value : ℕ → List ℕ → Option ℕ
digits_value n [] = some n
digits_value n (c ∷ cs) =
    let rest = digits_value (n * 10 + (c - 48)) cs in if leb 48 c && leb c 57 then rest else none

-- A minus sign first, or a point or an exponent anywhere: "-", ".eE".
abbrev is_fractional : List ℕ → Bool
is_fractional [] = true
is_fractional (c ∷ cs) = (c == 45) || any_row (λ x. (x == 46) || (x == 101) || (x == 69)) (c ∷ cs)

unfoldable pub strict_counter : Decoded → Outcome ℕ
strict_counter malformed = rejected "invalid character"
strict_counter trailing = rejected "trailing value"
strict_counter other = rejected "counter is not a number"
strict_counter (number text) = do
  require (not (is_fractional text)) 503 "counter is not a non-negative integer"
  n ← row_or (digits_value 0 text) 503 "counter out of range"
  require (leb n max_usage_counter) 503 "counter out of range"
  ok n

unfoldable pub usage_add : ℕ → List ℕ → Option ℕ
usage_add total [] = some total
usage_add total (v ∷ vs) =
    let rest = usage_add (total + v) vs in if ltb (max_usage_counter - total) v then none else rest

module _ {R : Type 0} (j : Json R) where
  abbrev field : List (String × R) → String → Option (String × R)
  field fields name = find (λ f. str_eq f.0 name) fields

  abbrev seen_counter : Option (String × R) → Outcome Seen
  seen_counter none = ok (record { value = 0; seen = false })
  seen_counter (some f) =
      strict_counter (j.decode f.1) >>= λ n. ok (record { value = n; seen = true })

  unfoldable pub counter : List (String × R) → String → Outcome Seen
  unfolding strict_counter
  counter fields name = seen_counter (field fields name)

  -- The counter under the first of two names that the object has.
  unfoldable pub first_counter : List (String × R) → String → String → Outcome Seen
  unfolding counter
  first_counter fields a b = elim (field fields a) [
    | some f ↦ counter fields a
    | none ↦ counter fields b
  ]

  abbrev pub prefer : Seen → Seen → Seen
  prefer a b = if b.seen then b else a

  -- The cache counters, which prompt_tokens_details overrides where it has them.
  abbrev pub with_details : Option (String × R) → Seen → Seen → Outcome (Seen × Seen)
  with_details none read write = ok (read, write)
  with_details (some f) read write = do
    details ← row_or (j.fields f.1) 503 "invalid provider usage prompt details"
    cached ← counter details "cached_tokens"
    created ← counter details "cache_creation_input_tokens"
    ok (prefer read cached, prefer write created)

  abbrev pub value_or : Seen → ℕ → ℕ
  value_or s n = if s.seen then s.value else n

  -- Known once, at a final report that leaves both totals known.
  abbrev pub known_if : Bool → Usage → Usage
  known_if final u = record u { known = u.known || (final && u.input_known && u.output_known) }

  unfoldable pub read_openai : List (String × R) → Usage → Bool → Outcome Usage
  read_openai fields prior final = do
    input ← first_counter fields "prompt_tokens" "input_tokens"
    output ← first_counter fields "completion_tokens" "output_tokens"
    read ← counter fields "cache_read_input_tokens"
    write ← counter fields "cache_creation_input_tokens"
    caches ← with_details (field fields "prompt_tokens_details") read write
    ok (
        known_if final (record {
          input_tokens = value_or input prior.input_tokens;
          output_tokens = value_or output prior.output_tokens;
          cache_read_tokens = value_or caches.0 prior.cache_read_tokens;
          cache_write_tokens = value_or caches.1 prior.cache_write_tokens;
          known = prior.known;
          input_known = prior.input_known || input.seen;
          output_known = prior.output_known || output.seen;
        }))

  -- input_tokens without the caches: as reported, or what the total before was made of.
  abbrev pub base_tokens : Seen → Usage → Outcome ℕ
  base_tokens input prior =
      if input.seen
      then ok input.value
      else if ltb prior.input_tokens (prior.cache_read_tokens + prior.cache_write_tokens)
      then rejected "invalid provider usage input total"
      else ok (prior.input_tokens - prior.cache_read_tokens - prior.cache_write_tokens)

  abbrev pub total_tokens : Seen → Seen → Seen → Usage → Outcome ℕ
  total_tokens input read write prior =
      if input.seen || (prior.input_known && (read.seen || write.seen))
      then (do
        base ← base_tokens input prior
        row_or
            (usage_add 0 (
              base
              ∷ value_or read prior.cache_read_tokens
              ∷ value_or write prior.cache_write_tokens
              ∷ []))
            503 "provider usage input total out of range")
      else ok prior.input_tokens

  unfoldable pub read_anthropic : List (String × R) → Usage → Bool → Outcome Usage
  unfolding usage_add
  read_anthropic fields prior final = do
    input ← counter fields "input_tokens"
    output ← counter fields "output_tokens"
    read ← counter fields "cache_read_input_tokens"
    write ← counter fields "cache_creation_input_tokens"
    total ← total_tokens input read write prior
    ok (
        known_if final (record {
          input_tokens = total;
          output_tokens = if output.seen && final then output.value else prior.output_tokens;
          cache_read_tokens = value_or read prior.cache_read_tokens;
          cache_write_tokens = value_or write prior.cache_write_tokens;
          known = prior.known;
          input_known = prior.input_known || input.seen;
          output_known = prior.output_known || (output.seen && final);
        }))
