-- ===== src/Policy/Reserved.antt =====
-- A reservation is booked on the accounts and in the ledger alike.
use qgramm.Common.{
  ℕ, ◌+◌, ◌-◌, ◌/◌, ◌≡◌, refl, sym, ap, ◌∙◌, String, Bool, ◌&&◌, Option, none, some, List, [], ◌∷◌,
  ◌++◌, leb, ◌==◌, if◌then◌else◌, str_eq, eq_iff, Bool-cases, inl, inr, arith, ok, require,
  >>=-eq-ok, row_or-eq-ok, ok-injective,
}
use qgramm.Policy.{
  max_int64, Effect, Amounts, Account, LedgerRow, Ledger, Caps, no_amounts, amounts_of, cap_of,
  scopes_of, reserve_of, find_account, put_account, reserve_scope, reserve_all, reserve_budget,
}
use qgramm.Policy.Budget.{fits}
use qgramm.Policy.Balanced.{
  reserved_in, account_holds, ledger_holds, row_holds, IsBalanced, find_account-put,
}

ledger_holds-append :
    (s k : String) (day : ℕ) (rs : List LedgerRow) (r : LedgerRow)
    → ledger_holds s k day (rs ++ r ∷ []) ≡ ledger_holds s k day rs + row_holds s k day r
unfolding ledger_holds
ledger_holds-append s k day [] r = omega arith
ledger_holds-append s k day (x ∷ rs) r = omega (arith, ledger_holds-append s k day rs r)

pub amounts_of-holds :
    (o : Option Account) (m : Amounts) → amounts_of o ≡ ok m → account_holds o ≡ m.reserved
amounts_of-holds none m h = ap (λ v. v.reserved) (ok-injective _ _ h)
amounts_of-holds (some a) m h = ap reserved_in (row_or-eq-ok _ _ _ h)

-- A reservation under one key grows what its account and its row hold by the same amount.
booked :
    (s k s' k' : String) (day day' reserve : ℕ) (accounts : List Account)
    {before after now more : ℕ}
    → before ≡ account_holds (find_account s' k' day' accounts)
    → account_holds (find_account s k day accounts) ≡ now
    → after ≡ (
        if str_eq s s' && str_eq k k' && (day == day')
        then now + reserve
        else account_holds (find_account s' k' day' accounts))
    → more ≡ (if str_eq s s' && str_eq k k' && (day == day') then reserve else 0)
    → after ≡ before + more
booked s k s' k' day day' reserve accounts old held put row =
    elim (Bool-cases (str_eq s s' && str_eq k k' && (day == day'))) [
      | inr other ↦ omega (arith, old, rw other at put, rw other at row)
      | inl here ↦
          let scope : s ≡ s' = ground (arith, here, eq_iff s s') in
          let id : k ≡ k' = ground (arith, here, eq_iff k k') in
          let at_day : day ≡ day' = ground (arith, here) in
          omega (arith, old, rw here at put, rw here at row, rw (scope, id, at_day) at held)
    ]

reserve_scope-IsBalanced :
    (io : ℕ → Bool) (caps : Caps) (request job : String) (day now reserve : ℕ) (l : Ledger)
    (scope k : String) {l' : Ledger}
    → reserve_scope io caps request job day now reserve l (scope, k) ≡ ok l'
    → IsBalanced l
    → IsBalanced l'
unfolding reserve_scope
reserve_scope-IsBalanced io caps request job day now reserve l scope k {l'} h balanced s' k' day' =
    let (_, _, h1) = >>=-eq-ok (require (io 0) 503 "storage unavailable") _ h in
    let (m, hm, h2) = >>=-eq-ok (amounts_of (find_account scope k day l.accounts)) _ h1 in
    let (_, _, h3) =
      >>=-eq-ok (require (fits (cap_of caps scope) m reserve) 503 "AI daily budget exceeded") _
        h2 in
    let (_, _, h4) = >>=-eq-ok (require (io 1 && io 2 && io 3) 503 "storage unavailable") _ h3 in
    let (_, _, h5) =
      >>=-eq-ok (require (leb m.reserved (max_int64 - reserve)) 503 "AI budget counter overflow") _
        h4 in
    let (_, _, h6) = >>=-eq-ok (require (io 4 && io 5) 503 "storage unavailable") _ h5 in
    let m' : Amounts = record m { reserved = m.reserved + reserve } in
    let row : LedgerRow = record {
      request_id = request;
      job_id = job;
      scope = scope;
      scope_id = k;
      day = day;
      amounts = some (record no_amounts { reserved = reserve; currency = caps.currency });
      status = "reserved";
      created_at = now;
    } in
    let new : Ledger = record {
      accounts = put_account scope k day m' l.accounts;
      rows = l.rows ++ row ∷ [];
    } in
    let end : new ≡ l' = ok-injective _ _ h6 in
    let put = find_account-put scope k s' k' day day' m' l.accounts in
    let held = amounts_of-holds (find_account scope k day l.accounts) m hm in
    let grown =
      booked scope k s' k' day day' reserve l.accounts (sym (balanced s' k' day')) held put refl in
    rw⁻¹ end (grown ∙ sym (ledger_holds-append s' k' day' l.rows row))

reserve_all-IsBalanced :
    (io : String → ℕ → Bool) (caps : Caps) (request job : String) (day now reserve : ℕ) (l : Ledger)
    (scopes : List (String × String)) {l' : Ledger}
    → reserve_all io caps request job day now reserve l scopes ≡ ok l'
    → IsBalanced l
    → IsBalanced l'
unfolding reserve_all
reserve_all-IsBalanced io caps request job day now reserve l [] h balanced =
    rw⁻¹ (ok-injective _ _ h) balanced
reserve_all-IsBalanced io caps request job day now reserve l ((scope, k) ∷ rest) h balanced =
    let (l1, one, h1) =
      >>=-eq-ok (reserve_scope (io scope) caps request job day now reserve l (scope, k)) _ h in
    reserve_all-IsBalanced io caps request job day now reserve l1 rest h1
      (reserve_scope-IsBalanced (io scope) caps request job day now reserve l scope k one balanced)

-- A reservation that is granted keeps the books balanced: for every scope and day, the account holds reserved
-- exactly what the rows of the ledger have reserved.
pub reserve_budget-IsBalanced :
    (io : String → ℕ → Bool) (caps : Caps) (request bot source_user : String) (effect : Effect)
    (now : ℕ) (l : Ledger) {l' : Ledger}
    → reserve_budget io caps request bot source_user effect now l ≡ ok l'
    → IsBalanced l
    → IsBalanced l'
unfolding reserve_budget
reserve_budget-IsBalanced io caps request bot source_user effect now l h =
    reserve_all-IsBalanced io caps request effect.job (now / 86400) now (reserve_of caps effect) l
      (scopes_of bot source_user) h
