-- ===== src/Policy/Budget.antt =====
-- aiPolicyReserveTx of internal/modules/ai_policy.go. A sealed payload stands as what it seals, and
-- as none where it does not open; counters are not negative.
use qgramm.Common.{
  ℕ, ◌+◌, ◌-◌, ◌/◌, String, Bool, not, ◌&&◌, ◌||◌, Option, none, some, List, [], ◌∷◌, ◌++◌, leb,
  ◌==◌, if◌then◌else◌, find, str_eq, Outcome, ok, require, row_or, ◌>>=◌, ◌>>◌,
}
use qgramm.Policy.Cost.{max_int64, Effect}

pub record Amounts : Type 0 where
  pub reserved : ℕ
  pub cost : ℕ
  pub used : ℕ
  pub currency : String

abbrev pub no_amounts : Amounts
no_amounts = record { reserved = 0; cost = 0; used = 0; currency = "" }

pub record Account : Type 0 where
  pub scope : String
  pub scope_id : String
  pub day : ℕ
  pub payload : Option Amounts

pub record LedgerRow : Type 0 where
  pub request_id : String
  pub job_id : String
  pub scope : String
  pub scope_id : String
  pub day : ℕ
  pub amounts : Option Amounts
  pub status : String
  pub created_at : ℕ

pub record Ledger : Type 0 where
  pub accounts : List Account
  pub rows : List LedgerRow

-- The AIPolicy section of the configuration; 0 is no cap.
pub record Caps : Type 0 where
  pub global_daily : ℕ
  pub per_bot_daily : ℕ
  pub per_user_daily : ℕ
  pub provider_reserve : ℕ
  pub currency : String

unfoldable pub cap_of : Caps → String → ℕ
cap_of c scope =
    if str_eq scope "global"
    then c.global_daily
    else if str_eq scope "bot"
    then c.per_bot_daily
    else if str_eq scope "source_user"
    then c.per_user_daily
    else 0

abbrev pub is_account : String → String → ℕ → Account → Bool
is_account scope k day a = str_eq a.scope scope && str_eq a.scope_id k && (a.day == day)

unfoldable pub find_account : String → String → ℕ → List Account → Option Account
find_account scope k day = find (is_account scope k day)

-- INSERT ... ON CONFLICT(scope,scope_id,day) DO UPDATE SET payload=excluded.payload
unfoldable pub put_account : String → String → ℕ → Amounts → List Account → List Account
put_account scope k day m [] =
    record { scope = scope; scope_id = k; day = day; payload = some m } ∷ []
put_account scope k day m (a ∷ others) =
    let rest = put_account scope k day m others in
    if is_account scope k day a then record a { payload = some m } ∷ others else a ∷ rest

-- The account of a scope, empty if there is none yet.
abbrev pub amounts_of : Option Account → Outcome Amounts
amounts_of none = ok no_amounts
amounts_of (some a) = row_or a.payload 503 "AI account unavailable"

-- Zero is no cap; the sums are compared without overflow.
abbrev pub fits : ℕ → Amounts → ℕ → Bool
fits cap m reserve =
    (cap == 0)
    || (leb m.used (max_int64 - m.reserved)
        && leb (m.used + m.reserved) (max_int64 - reserve)
        && leb (m.used + m.reserved + reserve) cap)

-- One scope of the loop; `io n` says whether its n-th seal or statement gets through, and `day` is
-- the number of the UTC day.
unfoldable pub reserve_scope :
    (ℕ → Bool) → Caps → String → String → ℕ → ℕ → ℕ → Ledger → String × String → Outcome Ledger
unfolding put_account
reserve_scope io caps request job day now reserve l (scope, k) = do
  require (io 0) 503 "storage unavailable"
  m ← amounts_of (find_account scope k day l.accounts)
  require (fits (cap_of caps scope) m reserve) 503 "AI daily budget exceeded"
  require (io 1 && io 2 && io 3) 503 "storage unavailable"
  require (leb m.reserved (max_int64 - reserve)) 503 "AI budget counter overflow"
  require (io 4 && io 5) 503 "storage unavailable"
  ok (record {
    accounts = put_account scope k day (record m { reserved = m.reserved + reserve }) l.accounts;
    rows =
        l.rows
        ++ record {
          request_id = request;
          job_id = job;
          scope = scope;
          scope_id = k;
          day = day;
          amounts = some (record no_amounts { reserved = reserve; currency = caps.currency });
          status = "reserved";
          created_at = now;
        }
          ∷ [];
  })

unfoldable pub reserve_all :
    (String → ℕ → Bool)
    → Caps
    → String
    → String
    → ℕ
    → ℕ
    → ℕ
    → Ledger
    → List (String × String)
    → Outcome Ledger
reserve_all io caps request job day now reserve l [] = ok l
reserve_all io caps request job day now reserve l ((scope, k) ∷ rest) =
    reserve_scope (io scope) caps request job day now reserve l (scope, k) >>= λ l'.
    reserve_all io caps request job day now reserve l' rest

abbrev pub scopes_of : String → String → List (String × String)
scopes_of bot source_user = ("global", "global") ∷ ("bot", bot) ∷ ("source_user", source_user) ∷ []

-- What a request reserves: its own amount, or the configured one unless it is a tool.
abbrev pub reserve_of : Caps → Effect → ℕ
reserve_of caps effect =
    if (effect.reserve == 0) && not (str_eq effect.action "tool")
    then caps.provider_reserve
    else effect.reserve

unfoldable pub reserve_budget :
    (String → ℕ → Bool) → Caps → String → String → String → Effect → ℕ → Ledger → Outcome Ledger
unfolding reserve_all
reserve_budget io caps request bot source_user effect now l =
    reserve_all io caps request effect.job (now / 86400) now (reserve_of caps effect) l
      (scopes_of bot source_user)
