-- ===== src/Writer/Sqlite.antt =====
-- database/sql over SQLite, as executeBatchContext uses it: the calls, and what is documented of
-- them. Neither is code of this repository.
use qgramm.Common.{◌≡◌, Option, ApiError, Outcome, ok}

-- `view` is what the transaction's statements see, `mark` what they saw at the last savepoint, and
-- `exec` runs a job's statements, which read and write the view and control no transaction.
pub record Transactions (D R : Type 0) : Type 1 where
  pub Tx : Type 0
  pub view : Tx → D
  pub mark : Tx → D
  pub begin : D → Outcome Tx
  pub savepoint : Tx → Outcome Tx
  pub exec : (D → D × R) → Tx → Tx × R
  pub rollback_to : Tx → Outcome Tx
  pub release : Tx → Outcome Tx
  pub commit : Tx → Outcome D
  pub rollback : Tx → Option ApiError

pub record IsTransactional {D R : Type 0} (t : Transactions D R) : Type 0 where
  pub view-begin : (d : D) (x : t.Tx) → t.begin d ≡ ok x → t.view x ≡ d
  pub view-savepoint : (x y : t.Tx) → t.savepoint x ≡ ok y → t.view y ≡ t.view x
  pub mark-savepoint : (x y : t.Tx) → t.savepoint x ≡ ok y → t.mark y ≡ t.view x
  pub view-exec : (f : D → D × R) (x : t.Tx) → t.view (t.exec f x).0 ≡ (f (t.view x)).0
  pub mark-exec : (f : D → D × R) (x : t.Tx) → t.mark (t.exec f x).0 ≡ t.mark x
  pub result-exec : (f : D → D × R) (x : t.Tx) → (t.exec f x).1 ≡ (f (t.view x)).1
  pub view-rollback_to : (x y : t.Tx) → t.rollback_to x ≡ ok y → t.view y ≡ t.mark x
  pub view-release : (x y : t.Tx) → t.release x ≡ ok y → t.view y ≡ t.view x
  pub view-commit : (x : t.Tx) (d : D) → t.commit x ≡ ok d → d ≡ t.view x
