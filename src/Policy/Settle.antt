-- ===== src/Policy/Settle.antt =====
-- aiPolicySettle of internal/modules/ai_policy.go: what a request reserved becomes what it cost. The token
-- counts that a row of the ledger also keeps are left out.
use qgramm.Common.{
  ℕ, ◌+◌, ◌-◌, String, Bool, true, false, ◌&&◌, ◌||◌, Option, some, List, [], ◌∷◌, leb,
  if◌then◌else◌, find, update_rows, str_eq, Outcome, ok, require, row_or, ◌>>=◌, ◌>>◌,
}
use qgramm.Policy.Counters.{Usage}
use qgramm.Policy.Cost.{max_int64, Effect, policy_cost}
use qgramm.Policy.Budget.{
  no_amounts, Account, LedgerRow, Ledger, Caps, find_account, put_account, reserve_of,
}

-- A row of ai_policy_requests, with its effect if the stored payload opens.
pub record PolicyRequest : Type 0 where
  pub id : String
  pub status : String
  pub outcome : String
  pub effect : Option Effect

pub record Books : Type 0 where
  pub requests : List PolicyRequest
  pub ledger : Ledger

unfoldable pub find_request : String → List PolicyRequest → Option PolicyRequest
find_request k = find (λ r. str_eq r.id k)

abbrev pub is_known : Effect → Usage → Bool
is_known effect usage = usage.known || str_eq effect.action "tool"

-- The cost, if it is known; else what was reserved.
unfoldable pub actual_cost : Caps → Effect → Usage → Outcome ℕ
unfolding policy_cost
actual_cost caps effect usage =
    if is_known effect usage then policy_cost effect usage else ok (reserve_of caps effect)

-- The account of a completed row: its reservation is given back, and its cost is used.
unfoldable pub settle_account : Bool → LedgerRow → ℕ → ℕ → List Account → Outcome (List Account)
unfolding find_account put_account
settle_account reads r old cost accounts = do
  a ← row_or (find_account r.scope r.scope_id r.day accounts) 503 "storage unavailable"
  require reads 503 "storage unavailable"
  m ← row_or a.payload 503 "AI account unavailable"
  require (leb old m.reserved && leb m.used (max_int64 - cost)) 503 "invalid AI account amounts"
  ok (
      put_account r.scope r.scope_id r.day
        (record m { reserved = m.reserved - old; used = m.used + cost }) accounts)

abbrev pub settled_row : Caps → LedgerRow → ℕ → ℕ → String → LedgerRow
settled_row caps r reserved cost status = record r {
  amounts = some (record no_amounts { reserved = reserved; cost = cost; currency = caps.currency });
  status = status;
}

-- One row of the ledger; a request that is not completed keeps its reservation.
unfoldable pub settle_row :
    (ℕ → Bool) → Caps → Bool → ℕ → LedgerRow → List Account → Outcome (LedgerRow × List Account)
unfolding settle_account
settle_row io caps true cost r accounts = do
  m ← row_or r.amounts 503 "AI ledger amounts unavailable"
  require (io 0) 503 "storage unavailable"
  accounts' ← settle_account (io 1) r m.reserved cost accounts
  ok (settled_row caps r 0 cost "completed", accounts')
settle_row io caps false cost r accounts = do
  m ← row_or r.amounts 503 "AI ledger amounts unavailable"
  require (io 0) 503 "storage unavailable"
  ok (settled_row caps r m.reserved 0 "uncertain", accounts)

-- The loop over the rows of the request.
unfoldable pub settle_rows :
    (ℕ → ℕ → Bool)
    → ℕ
    → Caps
    → String
    → Bool
    → ℕ
    → List LedgerRow
    → List Account
    → Outcome (List LedgerRow × List Account)
unfolding settle_row
settle_rows io n caps request completed cost [] accounts = ok ([], accounts)
settle_rows io n caps request completed cost (r ∷ rs) accounts = do
  one ←
      if str_eq r.request_id request
      then settle_row (io n) caps completed cost r accounts
      else ok (r, accounts)
  rest ← settle_rows io (n + 1) caps request completed cost rs one.1
  ok (one.0 ∷ rest.0, rest.1)

abbrev pub may_settle : String → Bool
may_settle status = str_eq status "dispatched" || str_eq status "uncertain"

abbrev status_of : Bool → String
status_of completed = if completed then "completed" else "uncertain"

-- The settlement of a request that is not completed.
unfoldable pub settle_open :
    (ℕ → Bool)
    → (ℕ → ℕ → Bool)
    → Caps
    → String
    → Usage
    → String
    → Bool
    → PolicyRequest
    → Books
    → Outcome Books
unfolding actual_cost settle_rows
settle_open io row_io caps request usage outcome success q b = do
  require (may_settle q.status) 503 "AI policy request is not settled"
  effect ← row_or q.effect 503 "storage unavailable"
  cost ← actual_cost caps effect usage
  done ←
      settle_rows row_io 0 caps request (is_known effect usage && success) cost b.ledger.rows
        b.ledger.accounts
  require (io 1 && io 2) 503 "storage unavailable"
  ok (record {
    requests =
        update_rows (λ r. str_eq r.id request)
          (λ r. record r {
            status = status_of (is_known effect usage && success);
            outcome = outcome;
          })
          b.requests;
    ledger = record { rows = done.0; accounts = done.1 };
  })

-- `success` is whether the outcome is one of the two words of success.
unfoldable pub settle_budget :
    (ℕ → Bool) → (ℕ → ℕ → Bool) → Caps → String → Usage → String → Bool → Books → Outcome Books
unfolding find_request settle_open
settle_budget io row_io caps request usage outcome success b = do
  require (io 0) 503 "storage unavailable"
  q ← row_or (find_request request b.requests) 503 "storage unavailable"
  if str_eq q.status "completed"
      then ok b
      else settle_open io row_io caps request usage outcome success q b
