-- ===== src/Writer/Queue/Order.antt =====
-- The writer runs every admitted job once, in the order of admission, in batches within the limits.
use qgramm.Common.{
  ℕ, zero, suc, ◌+◌, ◌≤◌, ◌≡◌, refl, sym, ap, ◌∙◌, List, [], ◌∷◌, ◌++◌, append_assoc, append-nil,
  length, Option, none, some, arith,
}
use qgramm.Writer.Queue.{
  Sized, Entry, plain, tx_job, group, Queue, Worker, Ran, ran_plain, ran_batch, drain, process,
  receive, turn, work,
}

module _ {J : Type 0} where
  abbrev pub sized_jobs : List (Sized J) → List J
  sized_jobs [] = []
  sized_jobs (j ∷ js) = j.job ∷ sized_jobs js

  abbrev pub jobs_in : Entry J → List J
  jobs_in (plain j) = j ∷ []
  jobs_in (tx_job j) = j.job ∷ []
  jobs_in (group js) = sized_jobs js

  abbrev pub all_jobs : List (Entry J) → List J
  all_jobs [] = []
  all_jobs (e ∷ es) = jobs_in e ++ all_jobs es

  abbrev pub waiting_jobs : Option (Entry J) → List (Entry J) → List J
  waiting_jobs none es = all_jobs es
  waiting_jobs (some e) es = jobs_in e ++ all_jobs es

  abbrev pub ran_jobs : Ran J → List J
  ran_jobs (ran_plain j) = j ∷ []
  ran_jobs (ran_batch js) = sized_jobs js

  abbrev pub log_jobs : List (Ran J) → List J
  log_jobs [] = []
  log_jobs (r ∷ rs) = ran_jobs r ++ log_jobs rs

  abbrev pub entries : Option (Entry J) → List (Entry J) → ℕ
  entries none es = length es
  entries (some e) es = suc (length es)

  log_jobs-append : (xs ys : List (Ran J)) → log_jobs (xs ++ ys) ≡ log_jobs xs ++ log_jobs ys
  log_jobs-append [] ys = refl
  log_jobs-append (x ∷ xs) ys = simp (log_jobs-append xs ys, append_assoc)

  drain_order :
      (n b : ℕ) (es : List (Entry J))
      → (sized_jobs (drain n b es).batch ++ waiting_jobs (drain n b es).pending (drain n b es).left
          ≡ all_jobs es)
        × (entries (drain n b es).pending (drain n b es).left ≤ length es)
  unfolding drain
  drain_order n b [] = (refl, omega arith)
  drain_order n b (plain j ∷ es) = ground arith
  drain_order n b (group js ∷ es) = ground arith
  drain_order n b (tx_job j ∷ es) = ground (arith, drain_order (n + 1) (b + j.bytes) es)

  -- What the writer has run and what still waits, in order.
  abbrev pub total : Worker J → List J
  total w = log_jobs w.log ++ waiting_jobs w.pending w.queue.jobs

  process_order :
      (e : Entry J) (q : Queue J) (log : List (Ran J))
      → (total (process e q log) ≡ log_jobs log ++ waiting_jobs (some e) q.jobs)
        × (entries (process e q log).pending (process e q log).queue.jobs ≤ length q.jobs)
  unfolding process
  process_order (plain j) q log =
      (simp (log_jobs-append log (ran_plain j ∷ []), append_assoc, append-nil), omega arith)
  process_order (group js) q log =
      (simp (log_jobs-append log (ran_batch js ∷ []), append_assoc, append-nil), omega arith)
  process_order (tx_job j) q log =
      let (same, fewer) = drain_order 1 j.bytes q.jobs in
      (
        simp
            (
              log_jobs-append log (ran_batch (j ∷ (drain 1 j.bytes q.jobs).batch) ∷ []),
              append_assoc,
              append-nil,
            )
            (ap (λ l. log_jobs log ++ j.job ∷ l) same),
        fewer,
      )

  receive-some :
      (q : Queue J) (log : List (Ran J)) (es : List (Entry J)) (n : ℕ)
      → length es ≡ suc n
      → (w : Worker J) × (receive q es log ≡ some w)
        × (total w ≡ log_jobs log ++ all_jobs es)
        × (entries w.pending w.queue.jobs ≤ n)
  unfolding receive
  receive-some q log [] n h = absurd (omega arith)
  receive-some q log (x ∷ es) n h =
      let (same, fewer) = process_order x (record q { jobs = es }) log in
      (process x (record q { jobs = es }) log, refl, same, omega arith)

  -- One turn with an entry at hand goes on, with one entry fewer and the same jobs in order.
  turn-some :
      (q : Queue J) (log : List (Ran J)) (p : Option (Entry J)) (n : ℕ)
      → entries p q.jobs ≡ suc n
      → (w : Worker J) × (turn q p log ≡ some w)
        × (total w ≡ log_jobs log ++ waiting_jobs p q.jobs)
        × (entries w.pending w.queue.jobs ≤ n)
  unfolding turn
  turn-some q log (some e) n h =
      let (same, fewer) = process_order e q log in (process e q log, refl, same, omega arith)
  turn-some q log none n h = receive-some q log q.jobs n h

  turn-none :
      (q : Queue J) (log : List (Ran J)) (p : Option (Entry J)) (es : List (Entry J))
      → q.jobs ≡ es
      → entries p es ≡ 0
      → (turn q p log ≡ none) × (p ≡ none) × (q.jobs ≡ [])
  unfolding turn receive
  turn-none q log none [] e h = (rw (e, receive), refl, e)
  turn-none q log none (x ∷ es) e h = absurd (omega arith)
  turn-none q log (some p) es e h = absurd (omega arith)

  idle-total :
      (l : List J) (p : Option (Entry J)) (es : List (Entry J))
      → p ≡ none
      → es ≡ []
      → l ≡ l ++ waiting_jobs p es
  idle-total l p es hp he = rw (hp, he) (sym (append-nil l))

  -- What `work` leaves: nothing waits, and every job that waited has run, in order.
  abbrev Finishes : Worker J → Worker J → Type 0
  Finishes w w' = (log_jobs w'.log ≡ total w) × (w'.queue.jobs ≡ []) × (w'.pending ≡ none)

  work-Finishes :
      (fuel : ℕ) (w : Worker J) (n : ℕ)
      → entries w.pending w.queue.jobs ≡ n
      → n ≤ fuel
      → Finishes w (work fuel w)
  unfolding work
  work-Finishes zero w zero e h =
      let (_, p, q) = turn-none w.queue w.log w.pending w.queue.jobs refl e in
      (idle-total (log_jobs w.log) w.pending w.queue.jobs p q, q, p)
  work-Finishes zero w (suc n) e h = absurd (omega arith)
  work-Finishes (suc fuel) w zero e h =
      let (t, p, q) = turn-none w.queue w.log w.pending w.queue.jobs refl e in
      rw (t, work) (idle-total (log_jobs w.log) w.pending w.queue.jobs p q, q, p)
  work-Finishes (suc fuel) w (suc n) e h =
      let (w', t, same, fewer) = turn-some w.queue w.log w.pending n e in
      let (a, b, c) = work-Finishes fuel w' (entries w'.pending w'.queue.jobs) refl (omega arith) in
      rw (t, work) (a ∙ same, b, c)

  -- With a turn for each entry that waits, the loop runs every job of the channel, those in groups and
  -- the one set aside included, once and in the order of admission, and leaves nothing waiting.
  pub work_runs_all :
      (fuel : ℕ) (w : Worker J)
      → entries w.pending w.queue.jobs ≤ fuel
      → (log_jobs (work fuel w).log ≡ total w)
        × ((work fuel w).queue.jobs ≡ [])
        × ((work fuel w).pending ≡ none)
  work_runs_all fuel w h = work-Finishes fuel w (entries w.pending w.queue.jobs) refl h
