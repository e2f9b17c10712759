-- ===== src/Tests/Writing.antt =====
-- Batches and the queue at concrete inputs, over a database that is a list of the stored numbers.
use qgramm.Common.{
  ℕ, ◌≡◌, ◌⊎◌, inr, refl, sym, ap, ok-injective, Bool, true, false, List, [], ◌∷◌, none, ApiError,
  Outcome, ok, err, arith, All, ltb, if◌then◌else◌,
}
use qgramm.Writer.{
  Transactions, IsTransactional, Job, Counters, execute_batch, batch_loop, batch_step, run_job,
  after_run, undo, keep, checked, finish_batch, finish_at, committing, final_results,
}
use qgramm.Writer.Serial.{serial}
use qgramm.Writer.Atomic.{IsOld, execute_batch_atomic}
use qgramm.Writer.Queue.{
  Sized, Entry, plain, tx_job, group, Worker, new_queue, submit_group, work, turn, receive, process,
  drain,
}
use qgramm.Writer.Queue.Capacity.{IsBounded, here, next, submits, queue-IsBounded}
use qgramm.Writer.Queue.Order.{total, log_jobs, work_runs_all}
use qgramm.Writer.Queue.Limits.{AllSmall, SmallEntry, IsSmall, work-AllSmall, submit_group-small}

abbrev Rows : Type 0
Rows = List ℕ

-- A transaction is the view, with the savepoint and the stored state.
record Tx : Type 0 where
  base : Rows
  seen : Rows
  saved : Rows

abbrev full : ApiError
full = record { status = 503; message = "disk full" }

abbrev memory : Transactions Rows (Outcome (ℕ × Bool))
memory = record {
  Tx = Tx;
  view = λ x. x.seen;
  mark = λ x. x.saved;
  begin = λ d. ok (record { base = d; seen = d; saved = d });
  savepoint = λ x. ok (record x { saved = x.seen });
  exec = λ f x. (record x { seen = (f x.seen).0 }, (f x.seen).1);
  rollback_to = λ x. ok (record x { seen = x.saved });
  release = λ x. ok x;
  commit = λ x. ok x.seen;
  rollback = λ x. none;
}

memory-IsTransactional : IsTransactional memory
memory-IsTransactional = record {
  view-begin = λ d x h. sym (ap (λ z. z.seen) (ok-injective _ _ h));
  view-savepoint = λ x y h. sym (ap (λ z. z.seen) (ok-injective _ _ h));
  mark-savepoint = λ x y h. sym (ap (λ z. z.saved) (ok-injective _ _ h));
  view-exec = λ f x. refl;
  mark-exec = λ f x. refl;
  result-exec = λ f x. refl;
  view-rollback_to = λ x y h. sym (ap (λ z. z.seen) (ok-injective _ _ h));
  view-release = λ x y h. sym (ap (λ z. z.seen) (ok-injective _ _ h));
  view-commit = λ x d h. sym (ok-injective _ _ h);
}

-- Adds its number; a number above 9 is added and then refused.
abbrev adds : ℕ → Job Rows ℕ
adds n = record {
  ctx_start = none;
  ctx_end = none;
  ctx_count = none;
  body = λ d. (n ∷ d, if ltb 9 n then err full else ok (n, false));
}

abbrev zeros : Counters
zeros = record {
  cancelled = 0;
  commit_count = 0;
  commit_errors = 0;
  committed_messages = 0;
  batch_count = 0;
  batch_jobs = 0;
  max_batch = 0;
  completed = 0;
}

abbrev three : List (Job Rows ℕ)
three = adds 1 ∷ adds 20 ∷ adds 3 ∷ []

three_run : (execute_batch memory (0 ∷ []) zeros three).stored ≡ 3 ∷ 1 ∷ 0 ∷ []
unfolding execute_batch batch_loop batch_step run_job after_run undo keep checked finish_batch
    finish_at committing final_results
three_run = refl

execute_batch_atomic_example :
    let b = execute_batch memory (0 ∷ []) zeros three in
    ((b.stored ≡ 0 ∷ []) × All IsOld b.results) ⊎ (serial three (0 ∷ []) ≡ (b.stored, b.results))
execute_batch_atomic_example =
    execute_batch_atomic memory memory-IsTransactional (0 ∷ []) zeros three

abbrev sized : ℕ → Sized ℕ
sized n = record { job = n; bytes = 100; ctx_err = none }

abbrev waiting : List (Entry ℕ)
waiting =
    tx_job (sized 1)
    ∷ tx_job (sized 2)
    ∷ group (sized 3 ∷ sized 4 ∷ [])
    ∷ plain 5
    ∷ tx_job (sized 6)
    ∷ []

abbrev worker : Worker ℕ
worker = record {
  queue = record {
    capacity = 8;
    jobs = waiting;
    group_extra = 1;
    closed = true;
    admitted = 6;
    rejected = 0;
  };
  pending = none;
  log = [];
}

worker_run : log_jobs (work 5 worker).log ≡ 1 ∷ 2 ∷ 3 ∷ 4 ∷ 5 ∷ 6 ∷ []
unfolding work turn receive process drain
worker_run = refl

work_runs_all_example :
    (log_jobs (work 5 worker).log ≡ total worker)
    × ((work 5 worker).queue.jobs ≡ [])
    × ((work 5 worker).pending ≡ none)
work_runs_all_example = work_runs_all 5 worker (omega arith)

pair-IsSmall : IsSmall (sized 3 ∷ sized 4 ∷ [])
pair-IsSmall = record { few = omega arith; light = inr (omega arith) }

work-AllSmall_example : AllSmall (work 5 worker)
work-AllSmall_example =
    work-AllSmall 5 worker
      (record { queued = (tt, (tt, (pair-IsSmall, (tt, (tt, tt))))); held = tt; ran = tt })

abbrev pair : List (Sized ℕ)
pair = sized 1 ∷ sized 2 ∷ []

queue-IsBounded_example : IsBounded (submit_group (new_queue 1) pair).0 none
queue-IsBounded_example = queue-IsBounded 1 (next here (submits (new_queue 1) none pair))

submit_group-small_example : All SmallEntry (submit_group worker.queue pair).0.jobs
submit_group-small_example =
    submit_group-small worker.queue pair (tt, (tt, (pair-IsSmall, (tt, (tt, tt)))))
