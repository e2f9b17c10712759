-- ===== src/Writer/Queue/Limits.antt =====
-- The batches that the writer runs stay within maxWriteBatch and maxWriteBatchBytes.
use qgramm.Common.{
  ℕ, zero, suc, ◌+◌, ◌≤◌, ◌≡◌, ◌⊎◌, inl, inr, refl, subst, some-injective, List, [], ◌∷◌, ◌++◌,
  length, Option, none, some, arith, ltb, Option-cases, Bool-cases, ApiError, All, All-append,
}
use qgramm.Writer.Queue.{
  max_write_batch, max_write_batch_bytes, Sized, Entry, plain, tx_job, group, Queue, Worker, Ran,
  ran_plain, ran_batch, sum_bytes, drain, process, receive, turn, work, submit_group, enqueue,
  admit_group, group_context, first_cancelled,
}

module _ {J : Type 0} where
  -- A drained batch stays within both limits: `n` jobs of `b` bytes are taken before it.
  drain_limits :
      (n b : ℕ) (es : List (Entry J))
      → (n ≤ max_write_batch → n + length (drain n b es).batch ≤ max_write_batch)
        × (((drain n b es).batch ≡ [])
            ⊎ (b + sum_bytes (drain n b es).batch ≤ max_write_batch_bytes))
  unfolding drain
  drain_limits n b [] = (λ h. omega arith, inl refl)
  drain_limits n b (plain j ∷ es) = ground arith
  drain_limits n b (group js ∷ es) = ground arith
  drain_limits n b (tx_job j ∷ es) = ground (arith, drain_limits (n + 1) (b + j.bytes) es)

  -- At most 16 jobs, and at most 8 MiB unless one job makes the batch alone.
  pub record IsSmall (js : List (Sized J)) : Type 0 where
    pub few : length js ≤ max_write_batch
    pub light : (length js ≤ 1) ⊎ (sum_bytes js ≤ max_write_batch_bytes)

  abbrev pub SmallEntry : Entry J → Type 0
  SmallEntry (group js) = IsSmall js
  SmallEntry (plain j) = Unit
  SmallEntry (tx_job j) = Unit

  abbrev pub SmallPending : Option (Entry J) → Type 0
  SmallPending none = Unit
  SmallPending (some e) = SmallEntry e

  abbrev pub SmallRun : Ran J → Type 0
  SmallRun (ran_plain j) = Unit
  SmallRun (ran_batch js) = IsSmall js

  -- Groups that wait and batches that ran are small.
  pub record AllSmall (w : Worker J) : Type 0 where
    pub queued : All SmallEntry w.queue.jobs
    pub held : SmallPending w.pending
    pub ran : All SmallRun w.log

  drain-small :
      (n b : ℕ) (es : List (Entry J))
      → All SmallEntry es
      → SmallPending (drain n b es).pending × All SmallEntry (drain n b es).left
  unfolding drain
  drain-small n b [] h = (tt, tt)
  drain-small n b (plain j ∷ es) h = ground arith
  drain-small n b (group js ∷ es) h = ground arith
  drain-small n b (tx_job j ∷ es) h = ground (arith, drain-small (n + 1) (b + j.bytes) es h.1)

  batch-IsSmall : (j : Sized J) (es : List (Entry J)) → IsSmall (j ∷ (drain 1 j.bytes es).batch)
  batch-IsSmall j es = ground (arith, drain_limits 1 j.bytes es)

  process-AllSmall :
      (e : Entry J) (q : Queue J) (log : List (Ran J))
      → SmallEntry e
      → All SmallEntry q.jobs
      → All SmallRun log
      → AllSmall (process e q log)
  unfolding process
  process-AllSmall (plain j) q log s a r = record {
    queued = a;
    held = tt;
    ran = All-append SmallRun log (ran_plain j ∷ []) r (tt, tt);
  }
  process-AllSmall (group js) q log s a r = record {
    queued = a;
    held = tt;
    ran = All-append SmallRun log (ran_batch js ∷ []) r (s, tt);
  }
  process-AllSmall (tx_job j) q log s a r =
      let (p, l) = drain-small 1 j.bytes q.jobs a in
      record {
        queued = l;
        held = p;
        ran = All-append SmallRun log _ r (batch-IsSmall j q.jobs, tt);
      }

  receive-AllSmall :
      (q : Queue J) (es : List (Entry J)) (log : List (Ran J)) {w : Worker J}
      → All SmallEntry es
      → All SmallRun log
      → receive q es log ≡ some w
      → AllSmall w
  unfolding receive
  receive-AllSmall q [] log a r h = cc
  receive-AllSmall q (x ∷ es) log a r h =
      subst AllSmall (some-injective _ _ h)
        (process-AllSmall x (record q { jobs = es }) log a.0 a.1 r)

  turn-AllSmall :
      (q : Queue J) (p : Option (Entry J)) (log : List (Ran J)) {w : Worker J}
      → All SmallEntry q.jobs
      → SmallPending p
      → All SmallRun log
      → turn q p log ≡ some w
      → AllSmall w
  unfolding turn
  turn-AllSmall q none log a s r h = receive-AllSmall q q.jobs log a r h
  turn-AllSmall q (some e) log a s r h =
      subst AllSmall (some-injective _ _ h) (process-AllSmall e q log s a r)

  -- If the groups that wait are within the limits, so is every batch that the writer runs: at most 16
  -- jobs, and at most 8 MiB unless it is one job alone.
  pub work-AllSmall : (fuel : ℕ) (w : Worker J) → AllSmall w → AllSmall (work fuel w)
  unfolding work
  work-AllSmall zero w s = s
  work-AllSmall (suc fuel) w s = elim (Option-cases (turn w.queue w.pending w.log)) [
    | inl e ↦ rw (e, work) s
    | inr (w', e) ↦
        rw (e, work)
          (work-AllSmall fuel w' (turn-AllSmall w.queue w.pending w.log s.queued s.held s.ran e))
  ]

  enqueue-small :
      (q : Queue J) (c : Option ApiError) (e : Entry J)
      → SmallEntry e
      → All SmallEntry q.jobs
      → All SmallEntry (enqueue q c e).0.jobs
  unfolding enqueue
  enqueue-small q (some x) e s a = a
  enqueue-small q none e s a =
      let grown : All SmallEntry (q.jobs ++ e ∷ []) =
        All-append SmallEntry q.jobs (e ∷ []) a (s, tt) in
      ground arith

  group_context-small :
      (q : Queue J) (js : List (Sized J)) (c : Option ApiError)
      → IsSmall js
      → All SmallEntry q.jobs
      → All SmallEntry (group_context q js c).0.jobs
  unfolding group_context admit_group
  group_context-small q js (some x) s a = a
  group_context-small q js none s a =
      let grown : All SmallEntry (q.jobs ++ group js ∷ []) =
        All-append SmallEntry q.jobs (group js ∷ []) a (s, tt) in
      ground arith

  -- What submitGroup lets into the channel is within the limits: larger groups are refused.
  pub submit_group-small :
      (q : Queue J) (js : List (Sized J))
      → All SmallEntry q.jobs
      → All SmallEntry (submit_group q js).0.jobs
  unfolding submit_group
  submit_group-small q [] a = a
  submit_group-small q (j ∷ []) a = enqueue-small q j.ctx_err (tx_job j) tt a
  submit_group-small q (j ∷ k ∷ js) a =
      let c = first_cancelled (j ∷ k ∷ js) in
      let small = λ (s : IsSmall (j ∷ k ∷ js)). group_context-small q (j ∷ k ∷ js) c s a in
      elim (Bool-cases (ltb max_write_batch (length (j ∷ k ∷ js)))) [
        | inl e ↦ rw e a
        | inr e ↦ elim (Bool-cases (ltb max_write_batch_bytes (sum_bytes (j ∷ k ∷ js)))) [
          | inl f ↦ rw (e, f) a
          | inr f ↦ rw (e, f) (small (record { few = ground arith; light = inr (ground arith) }))
        ]
      ]
