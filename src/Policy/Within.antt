-- ===== src/Policy/Within.antt =====
-- A reservation that succeeds leaves its three accounts within the caps.
use qgramm.Common.{
  ℕ, ◌+◌, ◌-◌, ◌≤◌, ◌≡◌, refl, sym, ap, ◌∙◌, Option, none, row_or-eq-ok, ◌⊎◌, inl, inr, String,
  Bool, true, false, ◌&&◌, some, List, [], ◌∷◌, arith, All, ok-injective, Bool-cases, str_eq,
  eq_iff, eq_refl, leb, ◌==◌, ==_iff, ok, require, >>=-eq-ok, require-eq-ok, ◌/◌,
}
use qgramm.Policy.{
  max_int64, Effect, Amounts, Account, Ledger, Caps, amounts_of, cap_of, find_account, put_account,
  reserve_scope, reserve_all, reserve_budget, scopes_of, reserve_of,
}
use qgramm.Policy.Budget.{is_account, fits}
use qgramm.Policy.Balanced.{account_holds}
use qgramm.Policy.Reserved.{amounts_of-holds}

find_account-put_self :
    (s k : String) (day : ℕ) (m : Amounts) (rows : List Account)
    → (a : Account) × (find_account s k day (put_account s k day m rows) ≡ some a)
      × (a.payload ≡ some m)
unfolding find_account put_account
find_account-put_self s k day m [] = (
  record { scope = s; scope_id = k; day = day; payload = some m },
  ground (arith, eq_refl s, eq_refl k),
  refl,
)
find_account-put_self s k day m (a ∷ rows) =
    let (a', f, p) = find_account-put_self s k day m rows in
    elim (Bool-cases (is_account s k day a)) [
      | inl e ↦ (record a { payload = some m }, ground (arith, e), refl)
      | inr e ↦ (a', ground (arith, e, f), p)
    ]

find_account-put_other :
    (s k s' k' : String) (day : ℕ) (m : Amounts) (rows : List Account)
    → str_eq s s' ≡ false
    → find_account s' k' day (put_account s k day m rows) ≡ find_account s' k' day rows
unfolding find_account put_account
find_account-put_other s k s' k' day m [] h = rw h refl
find_account-put_other s k s' k' day m (a ∷ rows) h =
    let rest = find_account-put_other s k s' k' day m rows h in
    elim (Bool-cases (str_eq a.scope s)) [
      | inl e ↦ ground (arith, e, h, rest, (eq_iff a.scope s).0 e)
      | inr e ↦ ground (arith, e, rest)
    ]

-- What an account has used, nothing if it is not there or does not open.
abbrev pub used_in : Option Amounts → ℕ
used_in none = 0
used_in (some m) = m.used

abbrev pub account_used : Option Account → ℕ
account_used none = 0
account_used (some a) = used_in a.payload

amounts_of-used : (o : Option Account) (m : Amounts) → amounts_of o ≡ ok m → account_used o ≡ m.used
amounts_of-used none m h = ap (λ v. v.used) (ok-injective _ _ h)
amounts_of-used (some a) m h = ap used_in (row_or-eq-ok _ _ _ h)

-- The account of a scope is there, holds the reservation on top of what it held before, has used what it
-- had used, and is within the cap of the scope if it has one.
pub record IsWithin (caps : Caps) (day reserve : ℕ) (before l : Ledger) (key : String × String)
    : Type 0 where
  pub account : Account
  pub amounts : Amounts
  pub found : find_account key.0 key.1 day l.accounts ≡ some account
  pub opened : account.payload ≡ some amounts
  pub booked :
      amounts.reserved ≡ account_holds (find_account key.0 key.1 day before.accounts) + reserve
  pub spent : amounts.used ≡ account_used (find_account key.0 key.1 day before.accounts)
  pub within : (cap_of caps key.0 ≡ 0) ⊎ (amounts.used + amounts.reserved ≤ cap_of caps key.0)

IsWithin-before :
    (caps : Caps) (day reserve : ℕ) (before mid l : Ledger) (s k : String)
    → find_account s k day mid.accounts ≡ find_account s k day before.accounts
    → IsWithin caps day reserve mid l (s, k)
    → IsWithin caps day reserve before l (s, k)
IsWithin-before caps day reserve before mid l s k same w = record {
  account = w.account;
  amounts = w.amounts;
  found = w.found;
  opened = w.opened;
  booked = w.booked ∙ ap (λ o. account_holds o + reserve) same;
  spent = w.spent ∙ ap account_used same;
  within = w.within;
}

IsWithin-after :
    (caps : Caps) (day reserve : ℕ) (before mid l : Ledger) (s k : String)
    → find_account s k day l.accounts ≡ find_account s k day mid.accounts
    → IsWithin caps day reserve before mid (s, k)
    → IsWithin caps day reserve before l (s, k)
IsWithin-after caps day reserve before mid l s k same w = record {
  account = w.account;
  amounts = w.amounts;
  found = same ∙ w.found;
  opened = w.opened;
  booked = w.booked;
  spent = w.spent;
  within = w.within;
}

fits-within :
    (cap reserve : ℕ) (m : Amounts)
    → fits cap m reserve ≡ true
    → (cap ≡ 0) ⊎ (m.used + (m.reserved + reserve) ≤ cap)
fits-within cap reserve m h = elim (Bool-cases (cap == 0)) [
  | inl e ↦ inl ((==_iff cap 0).0 e)
  | inr e ↦ inr (ground (arith, e, h))
]

module _ (caps : Caps) (request job : String) (day now reserve : ℕ) where
  -- One scope: its own account ends within the cap, and those of other scopes are as before.
  reserve_scope-IsWithin :
      (io : ℕ → Bool) (l : Ledger) (s k : String) {l' : Ledger}
      → reserve_scope io caps request job day now reserve l (s, k) ≡ ok l'
      → IsWithin caps day reserve l l' (s, k)
        × ((s' k' : String)
            → str_eq s s' ≡ false
            → find_account s' k' day l'.accounts ≡ find_account s' k' day l.accounts)
  unfolding reserve_scope
  reserve_scope-IsWithin io l s k {l'} h =
      let (_, _, h1) = >>=-eq-ok (require (io 0) 503 "storage unavailable") _ h in
      let (m, hm, h2) = >>=-eq-ok (amounts_of (find_account s k day l.accounts)) _ h1 in
      let (_, fit, h3) =
        >>=-eq-ok (require (fits (cap_of caps s) m reserve) 503 "AI daily budget exceeded") _ h2 in
      let (_, _, h4) = >>=-eq-ok (require (io 1 && io 2 && io 3) 503 "storage unavailable") _ h3 in
      let (_, _, h5) =
        >>=-eq-ok (require (leb m.reserved (max_int64 - reserve)) 503 "AI budget counter overflow")
          _ h4 in
      let (_, _, h6) = >>=-eq-ok (require (io 4 && io 5) 503 "storage unavailable") _ h5 in
      let m' = record m { reserved = m.reserved + reserve } in
      let accounts : put_account s k day m' l.accounts ≡ l'.accounts = cc in
      let (a, found, opened) = find_account-put_self s k day m' l.accounts in
      (
        record {
          account = a;
          amounts = m';
          found = rw (sym accounts) found;
          opened = opened;
          booked = ap (λ n. n + reserve) (sym (amounts_of-holds _ m hm));
          spent = sym (amounts_of-used _ m hm);
          within = fits-within (cap_of caps s) reserve m (require-eq-ok _ _ _ fit);
        },
        λ s' k' other. rw (sym accounts) (find_account-put_other s k s' k' day m' l.accounts other),
      )

-- Whenever a request is let through, the accounts of the server, of the bot and of the user who asked
-- each hold this request's reservation on top of what they held reserved before, have used what they
-- had used, and are within their daily caps with it counted; a cap of 0 is no cap.
pub reserve_budget-IsWithin :
    (io : String → ℕ → Bool) (caps : Caps) (request bot source_user : String) (effect : Effect)
    (now : ℕ) (l : Ledger) {l' : Ledger}
    → reserve_budget io caps request bot source_user effect now l ≡ ok l'
    → All (IsWithin caps (now / 86400) (reserve_of caps effect) l l') (scopes_of bot source_user)
unfolding reserve_budget reserve_all
reserve_budget-IsWithin io caps request bot source_user effect now l {l'} h =
    let day = now / 86400 in
    let reserve = reserve_of caps effect in
    let (l1, e1, h1) =
      >>=-eq-ok
        (reserve_scope (io "global") caps request effect.job day now reserve l ("global", "global"))
        _ h in
    let (l2, e2, h2) =
      >>=-eq-ok (reserve_scope (io "bot") caps request effect.job day now reserve l1 ("bot", bot)) _
        h1 in
    let (l3, e3, h3) =
      >>=-eq-ok
        (reserve_scope (io "source_user") caps request effect.job day now reserve l2
          ("source_user", source_user))
        _ h2 in
    let (w1, k1) =
      reserve_scope-IsWithin caps request effect.job day now reserve (io "global") l "global"
        "global" e1 in
    let (w2, k2) =
      reserve_scope-IsWithin caps request effect.job day now reserve (io "bot") l1 "bot" bot e2 in
    let (w3, k3) =
      reserve_scope-IsWithin caps request effect.job day now reserve (io "source_user") l2
        "source_user" source_user e3 in
    let end : l3 ≡ l' = ok-injective _ _ h3 in
    rw (sym end) (
      IsWithin-after caps day reserve l l1 l3 "global" "global"
          (k3 "global" "global" refl ∙ k2 "global" "global" refl) w1,
      (
        IsWithin-after caps day reserve l l2 l3 "bot" bot (k3 "bot" bot refl)
            (IsWithin-before caps day reserve l l1 l2 "bot" bot (k1 "bot" bot refl) w2),
        (
          IsWithin-before caps day reserve l l2 l3 "source_user" source_user
              (k2 "source_user" source_user refl ∙ k1 "source_user" source_user refl) w3,
          tt,
        ),
      ),
    )
