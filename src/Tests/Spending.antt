-- ===== src/Tests/Spending.antt =====
-- Usage, costs and budgets at concrete inputs.
use qgramm.Common.{
  map, ok, ℕ, ◌+◌, ◌*◌, ◌≤◌, ◌<◌, ◌≡◌, refl, arith, String, true, false, List, [], ◌∷◌, none, some,
  All,
}
use qgramm.Policy.{
  reserve_of, Books, Amounts, no_amounts, find_request, actual_cost, settle_account, settle_row,
  settle_rows, settle_open, settle_budget, policy_cost, number, Json, Usage, max_int64,
  strict_counter, counter, usage_add, read_anthropic, ceil_rate, Effect, Caps, Ledger, cap_of,
  find_account, put_account, reserve_scope, reserve_all, reserve_budget, scopes_of,
}
use qgramm.Policy.Ceiling.{ceil_rate-least}
use qgramm.Policy.Balanced.{IsBalanced, ledger_holds}
use qgramm.Policy.Reserved.{reserve_budget-IsBalanced}
use qgramm.Policy.Within.{IsWithin, reserve_budget-IsWithin}
use qgramm.Policy.Totals.{usage_add-sum, IsInclusive, read_anthropic-IsInclusive}
use qgramm.Tests.Fixture.{value_or}

ceil_rate-least_example :
    (3 * 1500000 ≤ 5 * 1000000)
    × (5 * 1000000 < 3 * 1500000 + 1000000)
    × (3 * 1500000 + 999999 ≤ max_int64)
unfolding ceil_rate
ceil_rate-least_example = ceil_rate-least 3 1500000 5 refl

abbrev tight : Caps
tight = record {
  global_daily = 100;
  per_bot_daily = 60;
  per_user_daily = 0;
  provider_reserve = 40;
  currency = "EUR";
}

abbrev call_effect : Effect
call_effect = record { job = "j"; action = "model"; reserve = 0; input_price = 2; output_price = 3 }

abbrev empty_ledger : Ledger
empty_ledger = record { accounts = []; rows = [] }

abbrev reserved : Ledger
reserved =
    value_or (reserve_budget (λ s n. true) tight "r" "b" "u" call_effect 90000 empty_ledger)
      empty_ledger

reserve_budget-IsWithin_example :
    All (IsWithin tight 1 (reserve_of tight call_effect) empty_ledger reserved) (scopes_of "b" "u")
unfolding reserve_budget reserve_all reserve_scope put_account find_account cap_of
reserve_budget-IsWithin_example =
    reserve_budget-IsWithin (λ s n. true) tight "r" "b" "u" call_effect 90000 empty_ledger refl

usage_add-sum_example : usage_add 0 (3 ∷ 4 ∷ []) ≡ some 7
usage_add-sum_example = usage_add-sum 0 (3 ∷ 4 ∷ []) (omega arith)

-- Raw values that are digits already.
abbrev digits_json : Json (List ℕ)
digits_json = record { decode = number; fields = λ r. none }

abbrev report : List (String × List ℕ)
report = ("input_tokens", 50 ∷ 48 ∷ []) ∷ ("cache_read_input_tokens", 53 ∷ []) ∷ []

abbrev unused : Usage
unused = record {
  input_tokens = 0;
  output_tokens = 0;
  cache_read_tokens = 0;
  cache_write_tokens = 0;
  known = false;
  input_known = false;
  output_known = false;
}

read_anthropic-IsInclusive_example :
    IsInclusive (value_or (read_anthropic digits_json report unused false) unused)
unfolding read_anthropic counter strict_counter usage_add
read_anthropic-IsInclusive_example =
    read_anthropic-IsInclusive digits_json report unused false (λ k. cc) refl

empty-IsBalanced : IsBalanced empty_ledger
unfolding find_account ledger_holds
empty-IsBalanced s k day = refl

reserved_ok :
    reserve_budget (λ s n. true) tight "r" "b" "u" call_effect 90000 empty_ledger ≡ ok reserved
unfolding reserve_budget reserve_all reserve_scope put_account find_account cap_of
reserved_ok = refl

reserve_budget-IsBalanced_example : IsBalanced reserved
reserve_budget-IsBalanced_example =
    reserve_budget-IsBalanced (λ s n. true) tight "r" "b" "u" call_effect 90000 empty_ledger
      reserved_ok empty-IsBalanced

abbrev some_tokens : Usage
some_tokens = record {
  input_tokens = 1000000;
  output_tokens = 2000000;
  cache_read_tokens = 0;
  cache_write_tokens = 0;
  known = true;
  input_known = true;
  output_known = true;
}

abbrev open_books : Books
open_books = record {
  requests =
      record { id = "r"; status = "dispatched"; outcome = ""; effect = some call_effect } ∷ [];
  ledger = reserved;
}

abbrev settled_books : Books
settled_books =
    value_or
      (settle_budget (λ n. true) (λ i n. true) tight "r" some_tokens "success" true open_books)
      open_books

-- Two million tokens at 3 and one million at 2 cost 8, which every account of the request has used.
used_once :
    map (λ a. a.payload) settled_books.ledger.accounts
    ≡ (let m : Amounts = record no_amounts { used = 8 } in some m ∷ some m ∷ some m ∷ [])
unfolding settle_budget settle_open find_request actual_cost settle_rows settle_row settle_account
    policy_cost ceil_rate reserve_budget reserve_all reserve_scope put_account find_account cap_of
used_once = refl
