-- ===== src/Writer/Queue.antt =====
-- The bounded queue in front of the writer: enqueue, submitGroup, process, loop and close of
-- internal/core/writer_queue.go. A job is what executeBatch or execute gets; the lock w.mu makes each
-- admission one step, and the channel is the list of its entries, oldest first.
pub mod Capacity
pub mod Order
pub mod Limits
use qgramm.Common.{
  ℕ, zero, suc, ◌+◌, ◌-◌, ◌*◌, ◌≤◌, Bool, true, false, not, ◌&&◌, ◌||◌, List, [], ◌∷◌, ◌++◌, map,
  length, Option, none, some, ltb, leb, ◌==◌, if◌then◌else◌, any_row, ApiError, Outcome, ok, err,
  fail,
}

abbrev pub max_write_batch : ℕ
max_write_batch = 16

-- 8 << 20
abbrev pub max_write_batch_bytes : ℕ
max_write_batch_bytes = 8388608

-- messageWriteJob: what runs, its size in bytes, and ctx.Err() when it is submitted.
pub record Sized (J : Type 0) : Type 0 where
  pub job : J
  pub bytes : ℕ
  pub ctx_err : Option ApiError

-- An entry of the channel: runTx is nil, or set, or the entry carries a group.
pub data Entry (J : Type 0) : Type 0 where
  plain : J → Entry J
  tx_job : Sized J → Entry J
  group : List (Sized J) → Entry J

pub record Queue (J : Type 0) : Type 0 where
  pub capacity : ℕ
  pub jobs : List (Entry J)
  pub group_extra : ℕ
  pub closed : Bool
  pub admitted : ℕ
  pub rejected : ℕ

-- What one drain took: the batch, the entry that did not fit, and the entries left.
pub record Drained (J : Type 0) : Type 0 where
  pub batch : List (Sized J)
  pub pending : Option (Entry J)
  pub left : List (Entry J)

-- What the writer ran, in order: one job by execute, or a batch by executeBatch.
pub data Ran (J : Type 0) : Type 0 where
  ran_plain : J → Ran J
  ran_batch : List (Sized J) → Ran J

-- The loop's state: the channel, the entry that the last drain could not take, and what was run.
pub record Worker (J : Type 0) : Type 0 where
  pub queue : Queue J
  pub pending : Option (Entry J)
  pub log : List (Ran J)

-- cap(w.jobs), from the configured number of workers.
unfoldable pub queue_capacity : ℕ → ℕ
queue_capacity workers =
    let wanted = if ltb (workers * 4) 8 then 8 else workers * 4 in
    if ltb 256 wanted then 256 else wanted

module _ {J : Type 0} where
  unfoldable pub new_queue : ℕ → Queue J
  new_queue workers = record {
    capacity = queue_capacity workers;
    jobs = [];
    group_extra = 0;
    closed = false;
    admitted = 0;
    rejected = 0;
  }

  -- One job: the cancelled context first, then the lock, then the room, then the send, which finds
  -- room because a group counts as all its jobs.
  unfoldable pub enqueue : Queue J → Option ApiError → Entry J → Queue J × Outcome (Unit {0})
  enqueue q (some e) entry = (q, err e)
  enqueue q none entry =
      if q.closed
      then (q, fail 503 "writer stopping")
      else if leb q.capacity (length q.jobs + q.group_extra)
      then (record q { rejected = q.rejected + 1 }, fail 503 "writer queue full")
      else if ltb (length q.jobs) q.capacity
      then (record q { jobs = q.jobs ++ entry ∷ []; admitted = q.admitted + 1 }, ok tt)
      else (record q { rejected = q.rejected + 1 }, fail 503 "writer queue full")

  abbrev pub sum_bytes : List (Sized J) → ℕ
  sum_bytes [] = 0
  sum_bytes (j ∷ js) = j.bytes + sum_bytes js

  -- The error of the first job whose context is cancelled.
  abbrev pub first_cancelled : List (Sized J) → Option ApiError
  first_cancelled [] = none
  first_cancelled (j ∷ js) = elim j.ctx_err [ none ↦ first_cancelled js | some e ↦ some e ]

  unfoldable pub admit_group : Queue J → List (Sized J) → Queue J × Outcome (Unit {0})
  admit_group q js =
      if q.closed
      then (q, fail 503 "writer stopping")
      else if ltb q.capacity (length q.jobs + q.group_extra + length js)
      then (record q { rejected = q.rejected + length js }, fail 503 "writer queue full")
      else if ltb (length q.jobs) q.capacity
      then (
        record q {
          jobs = q.jobs ++ group js ∷ [];
          group_extra = q.group_extra + (length js - 1);
          admitted = q.admitted + length js;
        },
        ok tt,
      )
      else (record q { rejected = q.rejected + length js }, fail 503 "writer queue full")

  unfoldable pub group_context :
      Queue J → List (Sized J) → Option ApiError → Queue J × Outcome (Unit {0})
  unfolding admit_group
  group_context q js (some e) = (q, err e)
  group_context q js none = admit_group q js

  -- submitGroup, for jobs that all have runTx and no group of their own: one job goes the way of
  -- enqueue, none is admitted at once, and more go as one entry.
  unfoldable pub submit_group : Queue J → List (Sized J) → Queue J × Outcome (Unit {0})
  unfolding group_context
  submit_group q [] = (q, ok tt)
  submit_group q (j ∷ []) = enqueue q j.ctx_err (tx_job j)
  submit_group q (j ∷ k ∷ js) =
      if ltb max_write_batch (length (j ∷ k ∷ js))
      then (q, fail 503 "writer group too large")
      else if ltb max_write_batch_bytes (sum_bytes (j ∷ k ∷ js))
      then (q, fail 503 "writer group too large")
      else group_context q (j ∷ k ∷ js) (first_cancelled (j ∷ k ∷ js))

  abbrev pub took : Sized J → Drained J → Drained J
  took j d = record d { batch = j ∷ d.batch }

  -- The `drain` loop: `n` jobs of `bytes` bytes are taken already.
  unfoldable pub drain : ℕ → ℕ → List (Entry J) → Drained J
  drain n bytes [] = record { batch = []; pending = none; left = [] }
  drain n bytes (plain j ∷ es) =
      if ltb n max_write_batch && ltb bytes max_write_batch_bytes
      then record { batch = []; pending = some (plain j); left = es }
      else record { batch = []; pending = none; left = plain j ∷ es }
  drain n bytes (group js ∷ es) =
      if ltb n max_write_batch && ltb bytes max_write_batch_bytes
      then record { batch = []; pending = some (group js); left = es }
      else record { batch = []; pending = none; left = group js ∷ es }
  drain n bytes (tx_job j ∷ es) =
      let rest = took j (drain (n + 1) (bytes + j.bytes) es) in
      if ltb n max_write_batch && ltb bytes max_write_batch_bytes
      then (if ltb (max_write_batch_bytes - bytes) j.bytes
          then record { batch = []; pending = some (tx_job j); left = es }
          else rest)
      else record { batch = []; pending = none; left = tx_job j ∷ es }

  -- process: one entry, with the batch that it starts.
  unfoldable pub process : Entry J → Queue J → List (Ran J) → Worker J
  process (group js) q log = record {
    queue = record q { group_extra = q.group_extra - (length js - 1) };
    pending = none;
    log = log ++ ran_batch js ∷ [];
  }
  process (plain j) q log = record { queue = q; pending = none; log = log ++ ran_plain j ∷ [] }
  process (tx_job j) q log =
      let d = drain 1 j.bytes q.jobs in
      record {
        queue = record q { jobs = d.left };
        pending = d.pending;
        log = log ++ ran_batch (j ∷ d.batch) ∷ [];
      }

  unfoldable pub receive : Queue J → List (Entry J) → List (Ran J) → Option (Worker J)
  receive q [] log = none
  receive q (e ∷ es) log = some (process e (record q { jobs = es }) log)

  -- One turn of the loop; none: the loop waits, or returns once it is stopped.
  unfoldable pub turn : Queue J → Option (Entry J) → List (Ran J) → Option (Worker J)
  unfolding receive
  turn q (some e) log = some (process e q log)
  turn q none log = receive q q.jobs log

  unfoldable pub work : ℕ → Worker J → Worker J
  work zero w = w
  work (suc fuel) w = elim (turn w.queue w.pending w.log) [ none ↦ w | some w' ↦ work fuel w' ]

  -- close: no entry is admitted any more.
  unfoldable pub close : Queue J → Queue J
  close q = record q { closed = true }
