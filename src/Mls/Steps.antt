-- ===== src/Mls/Steps.antt =====
-- The calls of the relay as steps from one state to the next.
use qgramm.Common.{ℕ, ◌≡◌, String, Bool, ok}
use qgramm.Store.{Identity, Db, Engine}
use qgramm.Mls.Types.{Relay, Suite, Hooks}
use qgramm.Mls.Packages.{Claimed, upload_package, claim_package}
use qgramm.Mls.Commits.{CommitInput, submit_commit}
use qgramm.Mls.Confirm.{ConfirmInput, confirm_epoch}

-- A call that succeeded, or what the rest of the server did to its own tables.
pub data Step (e : Engine) (s : Suite) (hooks : Hooks) : Relay → Relay → Type 0 where
  elsewhere : (r : Relay) (db : Db) → Step e s hooks r (record r { db = db })
  uploaded :
      (io : ℕ → Bool) (r : Relay) (id : Identity) (encoded : String) (now : ℕ) (r' : Relay)
      (k : String)
      → upload_package e s io r id encoded now ≡ ok (r', k)
      → Step e s hooks r r'
  claimed :
      (io : ℕ → Bool) (r : Relay) (id : Identity) (chat target : String) (r' : Relay) (c : Claimed)
      → claim_package e s io r id chat target ≡ ok (r', c)
      → Step e s hooks r r'
  submitted :
      (io : ℕ → Bool) (fresh : String → String) (r : Relay) (id : Identity) (chat : String)
      (input : CommitInput) (transition : String) (now : ℕ) (r' : Relay)
      → submit_commit e s hooks io fresh r id chat input transition now ≡ ok r'
      → Step e s hooks r r'
  confirmed :
      (io init_io : ℕ → Bool) (r : Relay) (chat : String) (input : ConfirmInput) (now : ℕ)
      (r' : Relay)
      → confirm_epoch e s hooks io init_io r chat input now ≡ ok r'
      → Step e s hooks r r'

-- Any number of steps.
pub data Run (e : Engine) (s : Suite) (hooks : Hooks) : Relay → Relay → Type 0 where
  rests : (r : Relay) → Run e s hooks r r
  goes_on : (r m r' : Relay) → Run e s hooks r m → Step e s hooks m r' → Run e s hooks r r'
