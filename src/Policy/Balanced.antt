-- ===== src/Policy/Balanced.antt =====
-- What the accounts hold reserved is what the ledger's rows have reserved.
use qgramm.Common.{
  ℕ, ◌+◌, ◌≡◌, String, Bool, ◌&&◌, Option, none, some, List, [], ◌∷◌, ◌==◌, if◌then◌else◌, str_eq,
  eq_iff, arith,
}
use qgramm.Policy.{Amounts, Account, LedgerRow, Ledger, find_account, put_account}

-- What a payload holds reserved, nothing if it does not open.
abbrev pub reserved_in : Option Amounts → ℕ
reserved_in none = 0
reserved_in (some m) = m.reserved

abbrev pub account_holds : Option Account → ℕ
account_holds none = 0
account_holds (some a) = reserved_in a.payload

abbrev pub is_row_of : String → String → ℕ → LedgerRow → Bool
is_row_of s k day r = str_eq r.scope s && str_eq r.scope_id k && (r.day == day)

abbrev pub row_holds : String → String → ℕ → LedgerRow → ℕ
row_holds s k day r = if is_row_of s k day r then reserved_in r.amounts else 0

-- The reservations of a scope on a day.
unfoldable pub ledger_holds : String → String → ℕ → List LedgerRow → ℕ
ledger_holds s k day [] = 0
ledger_holds s k day (r ∷ rs) = row_holds s k day r + ledger_holds s k day rs

abbrev pub IsBalanced : Ledger → Type 0
IsBalanced l =
    (s k : String) (day : ℕ)
    → account_holds (find_account s k day l.accounts) ≡ ledger_holds s k day l.rows

-- What a put leaves under each key.
pub find_account-put :
    (s k s' k' : String) (day day' : ℕ) (m : Amounts) (rows : List Account)
    → account_holds (find_account s' k' day' (put_account s k day m rows)) ≡ (
        if str_eq s s' && str_eq k k' && (day == day')
        then m.reserved
        else account_holds (find_account s' k' day' rows))
unfolding find_account put_account
find_account-put s k s' k' day day' m [] = ground arith
find_account-put s k s' k' day day' m (a ∷ rows) = ground (
  arith,
  find_account-put s k s' k' day day' m rows,
  eq_iff a.scope s,
  eq_iff a.scope s',
  eq_iff s s',
  eq_iff a.scope_id k,
  eq_iff a.scope_id k',
  eq_iff k k',
)
