-- ===== src/Writer/Batch.antt =====
-- executeBatchContext of internal/core/writer_queue.go. A job's message with its `repeated` flag, or
-- its error, is an Outcome: a caller that sees an error reads nothing else.
use qgramm.Common.{
  ℕ, ◌+◌, Bool, true, false, List, [], ◌∷◌, map, length, Option, none, some, ltb, if◌then◌else◌,
  ApiError, Outcome, ok, err,
}
use qgramm.Writer.Sqlite.{Transactions}

-- ctx.Err() at the three places that read it: before the job, after it, and when it is counted.
pub record Job (D A : Type 0) : Type 0 where
  pub ctx_start : Option ApiError
  pub ctx_end : Option ApiError
  pub ctx_count : Option ApiError
  pub body : D → D × Outcome (A × Bool)

pub record Counters : Type 0 where
  pub cancelled : ℕ
  pub commit_count : ℕ
  pub commit_errors : ℕ
  pub committed_messages : ℕ
  pub batch_count : ℕ
  pub batch_jobs : ℕ
  pub max_batch : ℕ
  pub completed : ℕ

-- The shared transaction: usable, or with batchErr set (and `tx` nil if BeginTx failed).
pub data TxState (Tx : Type 0) : Type 0 where
  live : Tx → TxState Tx
  broken : Option Tx → ApiError → TxState Tx

pub record Loop (Tx : Type 0) : Type 0 where
  pub tx : TxState Tx
  pub changed : ℕ
  pub cancelled : ℕ

pub record BatchResult (D A : Type 0) : Type 0 where
  pub stored : D
  pub results : List (Outcome (A × Bool))
  pub counters : Counters

-- result.err = job.ctx.Err() where the job itself succeeded.
unfoldable pub checked {ℓ} : {A : Type ℓ} → Option ApiError → Outcome A → Outcome A
checked (some e) (ok a) = err e
checked none (ok a) = ok a
checked c (err e) = err e

abbrev pub fresh : Bool → ℕ
fresh true = 0
fresh false = 1

abbrev pub counted : Option ApiError → ℕ
counted none = 0
counted (some e) = 1

module _ {D A : Type 0} (t : Transactions D (Outcome (A × Bool))) where
  -- The savepoint of a failed job: back to it, then dropped.
  unfoldable pub undo : t.Tx → TxState t.Tx
  undo x = elim (t.rollback_to x) [
    | err e ↦ broken (some x) e
    | ok y ↦ elim (t.release y) [ err e ↦ broken (some y) e | ok z ↦ live z ]
  ]

  unfoldable pub keep : Loop t.Tx → t.Tx → Bool → Loop t.Tx
  keep s x repeated = elim (t.release x) [
    | err e ↦ record s { tx = broken (some x) e }
    | ok y ↦ record s { tx = live y; changed = s.changed + fresh repeated }
  ]

  -- `many`: more than one job, so each runs under a savepoint.
  unfoldable pub after_run :
      Bool → Loop t.Tx → Job D A → t.Tx → Outcome (A × Bool) → Outcome (A × Bool) × Loop t.Tx
  unfolding undo keep
  after_run true s j x (err e) =
      (err e, record s { tx = undo x; cancelled = s.cancelled + counted j.ctx_count })
  after_run false s j x (err e) =
      (err e, record s { tx = broken (some x) e; cancelled = s.cancelled + counted j.ctx_count })
  after_run true s j x (ok (m, repeated)) = (ok (m, repeated), keep s x repeated)
  after_run false s j x (ok (m, repeated)) =
      (ok (m, repeated), record s { tx = live x; changed = s.changed + fresh repeated })

  abbrev pub saved : Bool → t.Tx → Outcome t.Tx
  saved true x = t.savepoint x
  saved false x = ok x

  unfoldable pub run_job : Bool → Loop t.Tx → Job D A → t.Tx → Outcome (A × Bool) × Loop t.Tx
  unfolding after_run
  run_job many s j x = elim (saved many x) [
    | err e ↦ (err e, record s { tx = broken (some x) e })
    | ok y ↦ after_run many s j (t.exec j.body y).0 (checked j.ctx_end (t.exec j.body y).1)
  ]

  abbrev pub in_state : Bool → Loop t.Tx → Job D A → TxState t.Tx → Outcome (A × Bool) × Loop t.Tx
  in_state many s j (live x) = run_job many s j x
  in_state many s j (broken x e) = (err e, s)

  abbrev pub in_context :
      Bool → Loop t.Tx → Job D A → Option ApiError → Outcome (A × Bool) × Loop t.Tx
  in_context many s j (some e) = (err e, record s { cancelled = s.cancelled + 1 })
  in_context many s j none = in_state many s j s.tx

  unfoldable pub batch_step : Bool → Loop t.Tx → Job D A → Outcome (A × Bool) × Loop t.Tx
  batch_step many s j = in_context many s j j.ctx_start

  unfoldable pub batch_loop :
      Bool → Loop t.Tx → List (Job D A) → List (Outcome (A × Bool)) × Loop t.Tx
  batch_loop many s [] = ([], s)
  batch_loop many s (j ∷ js) =
      let (r, s') = batch_step many s j in let (rs, s'') = batch_loop many s' js in (r ∷ rs, s'')

  -- A failed outer transaction takes back every success.
  unfoldable pub invalidate : ApiError → Outcome (A × Bool) → Outcome (A × Bool)
  invalidate e (ok r) = err e
  invalidate e (err e') = err e'

  abbrev pub opened : Outcome t.Tx → TxState t.Tx
  opened (ok x) = live x
  opened (err e) = broken none e

  -- What the commit or the rollback leaves: the stored state, batchErr, and the commit counters.
  pub record Finish : Type 0 where
    pub stored : D
    pub batch_err : Option ApiError
    pub commits : ℕ
    pub commit_errors : ℕ
    pub committed : ℕ

  unfoldable pub committing : D → ℕ → Outcome D → Finish
  committing d n (ok d') = record {
    stored = d';
    batch_err = none;
    commits = 1;
    commit_errors = 0;
    committed = n;
  }
  committing d n (err e) = record {
    stored = d;
    batch_err = some e;
    commits = 1;
    commit_errors = 1;
    committed = 0;
  }

  unfoldable pub rolled_back : D → Option ApiError → Finish
  rolled_back d e = record {
    stored = d;
    batch_err = e;
    commits = 0;
    commit_errors = 0;
    committed = 0;
  }

  -- Commit if a message is new, and else roll back; `rollback` answers none for sql.ErrTxDone too.
  unfoldable pub finish_at : D → ℕ → TxState t.Tx → Finish
  unfolding committing rolled_back
  finish_at d n (live x) =
      if ltb 0 n then committing d n (t.commit x) else rolled_back d (t.rollback x)
  finish_at d n (broken x e) = rolled_back d (some e)

  unfoldable pub finish_batch : D → Loop t.Tx → Finish
  finish_batch d s = finish_at d s.changed s.tx

  unfoldable pub final_results :
      Option ApiError → List (Outcome (A × Bool)) → List (Outcome (A × Bool))
  final_results none rs = rs
  final_results (some e) rs = map (invalidate e) rs

  abbrev pub start_loop : D → Loop t.Tx
  start_loop d = record { tx = opened (t.begin d); changed = 0; cancelled = 0 }

  abbrev pub max_of : ℕ → ℕ → ℕ
  max_of a b = if ltb a b then b else a

  abbrev pub counters_after : Counters → Loop t.Tx → Finish → ℕ → Counters
  counters_after c s f n = record {
    cancelled = c.cancelled + s.cancelled;
    commit_count = c.commit_count + f.commits;
    commit_errors = c.commit_errors + f.commit_errors;
    committed_messages = c.committed_messages + f.committed;
    batch_count = c.batch_count + 1;
    batch_jobs = c.batch_jobs + n;
    max_batch = max_of c.max_batch n;
    completed = c.completed + n;
  }

  -- executeBatchContext: the stored state, one result for each job, and the counters.
  unfoldable pub execute_batch : D → Counters → List (Job D A) → BatchResult D A
  unfolding final_results
  execute_batch d c jobs =
      let (rs, s) = batch_loop (ltb 1 (length jobs)) (start_loop d) jobs in
      let f = finish_batch d s in
      record {
        stored = f.stored;
        results = final_results f.batch_err rs;
        counters = counters_after c s f (length jobs);
      }
