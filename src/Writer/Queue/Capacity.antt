-- ===== src/Writer/Queue/Capacity.antt =====
-- The queue never holds more jobs than its capacity, and counts what it admits.
use qgramm.Common.{
  ℕ, ◌+◌, ◌-◌, ◌≤◌, ◌<◌, ◌≡◌, refl, List, [], ◌∷◌, ◌++◌, length, length-append, Option, none, some,
  arith, subst, ap, some-injective, ApiError,
}
use qgramm.Writer.Queue.{
  Sized, Entry, plain, tx_job, group, Queue, Worker, Ran, new_queue, enqueue, first_cancelled,
  admit_group, group_context, submit_group, drain, process, receive, turn, close, queue_capacity,
}

module _ {J : Type 0} where
  -- How many jobs an entry holds beyond the one that its place in the channel counts.
  abbrev pub extra : Entry J → ℕ
  extra (plain j) = 0
  extra (tx_job j) = 0
  extra (group js) = length js - 1

  abbrev pub extras : List (Entry J) → ℕ
  extras [] = 0
  extras (e ∷ es) = extra e + extras es

  abbrev pub pending_extra : Option (Entry J) → ℕ
  pending_extra none = 0
  pending_extra (some e) = extra e

  -- groupExtra is exact, the jobs that wait fit the capacity, and that lies between 8 and 256.
  pub record IsBounded (q : Queue J) (pending : Option (Entry J)) : Type 0 where
    pub exact : q.group_extra ≡ pending_extra pending + extras q.jobs
    pub within : length q.jobs + q.group_extra ≤ q.capacity
    pub at_least : 8 ≤ q.capacity
    pub at_most : q.capacity ≤ 256

  extras-append : (es fs : List (Entry J)) → extras (es ++ fs) ≡ extras es + extras fs
  extras-append [] fs = omega arith
  extras-append (e ∷ es) fs = omega (arith, extras-append es fs)

  enqueue-IsBounded :
      (q : Queue J) (c : Option ApiError) (e : Entry J) (p : Option (Entry J))
      → extra e ≡ 0
      → IsBounded q p
      → IsBounded (enqueue q c e).0 p
  unfolding enqueue
  enqueue-IsBounded q (some x) e p z b = b
  enqueue-IsBounded q none e p z b =
      ground (arith, extras-append q.jobs (e ∷ []), length-append q.jobs (e ∷ []))

  admit_group-IsBounded :
      (q : Queue J) (js : List (Sized J)) (p : Option (Entry J))
      → 0 < length js
      → IsBounded q p
      → IsBounded (admit_group q js).0 p
  unfolding admit_group
  admit_group-IsBounded q js p z b =
      ground (arith, extras-append q.jobs (group js ∷ []), length-append q.jobs (group js ∷ []))

  group_context-IsBounded :
      (q : Queue J) (js : List (Sized J)) (p : Option (Entry J)) (c : Option ApiError)
      → 0 < length js
      → IsBounded q p
      → IsBounded (group_context q js c).0 p
  unfolding group_context
  group_context-IsBounded q js p none z b = admit_group-IsBounded q js p z b
  group_context-IsBounded q js p (some e) z b = b

  submit_group-IsBounded :
      (q : Queue J) (js : List (Sized J)) (p : Option (Entry J))
      → IsBounded q p
      → IsBounded (submit_group q js).0 p
  unfolding submit_group
  submit_group-IsBounded q [] p b = b
  submit_group-IsBounded q (j ∷ []) p b = enqueue-IsBounded q j.ctx_err (tx_job j) p refl b
  submit_group-IsBounded q (j ∷ k ∷ js) p b = ground (
    arith,
    group_context-IsBounded q (j ∷ k ∷ js) p (first_cancelled (j ∷ k ∷ js)) (omega arith) b,
  )

  pending_count : Option (Entry J) → ℕ
  pending_count none = 0
  pending_count (some e) = 1

  drain_parts :
      (n b : ℕ) (es : List (Entry J))
      → (pending_extra (drain n b es).pending + extras (drain n b es).left ≡ extras es)
        × (length (drain n b es).left ≤ length es)
  unfolding drain
  drain_parts n b [] = (refl, omega arith)
  drain_parts n b (plain j ∷ es) = ground arith
  drain_parts n b (group js ∷ es) = ground arith
  drain_parts n b (tx_job j ∷ es) = ground (arith, drain_parts (n + 1) (b + j.bytes) es)

  process-IsBounded :
      (e : Entry J) (q : Queue J) (log : List (Ran J))
      → IsBounded q (some e)
      → IsBounded (process e q log).queue (process e q log).pending
  unfolding process
  process-IsBounded (plain j) q log b = ground arith
  process-IsBounded (group js) q log b = ground arith
  process-IsBounded (tx_job j) q log b = ground (arith, drain_parts 1 j.bytes q.jobs)

  receive-IsBounded :
      (q : Queue J) (es : List (Entry J)) (log : List (Ran J)) {w : Worker J}
      → q.jobs ≡ es
      → IsBounded q none
      → receive q es log ≡ some w
      → IsBounded w.queue w.pending
  unfolding receive
  receive-IsBounded q [] log e b h = cc
  receive-IsBounded q (x ∷ es) log {w} e b h =
      subst (λ v. IsBounded v.queue v.pending) (some-injective _ _ h)
        (process-IsBounded x (record q { jobs = es }) log
          (record {
            exact = omega (arith, b.exact, ap extras e);
            within = omega (arith, b.within, ap length e);
            at_least = b.at_least;
            at_most = b.at_most;
          }))

  turn-IsBounded :
      (q : Queue J) (p : Option (Entry J)) (log : List (Ran J)) {w : Worker J}
      → IsBounded q p
      → turn q p log ≡ some w
      → IsBounded w.queue w.pending
  unfolding turn
  turn-IsBounded q none log b h = receive-IsBounded q q.jobs log refl b h
  turn-IsBounded q (some e) log b h =
      subst (λ v. IsBounded v.queue v.pending) (some-injective _ _ h) (process-IsBounded e q log b)

  -- The steps that clients and the writer take, in any order.
  pub data Step : Queue J → Option (Entry J) → Queue J → Option (Entry J) → Type 0 where
    submits :
        (q : Queue J) (p : Option (Entry J)) (js : List (Sized J))
        → Step q p (submit_group q js).0 p
    enqueues :
        (q : Queue J) (p : Option (Entry J)) (c : Option ApiError) (e : Entry J)
        → extra e ≡ 0
        → Step q p (enqueue q c e).0 p
    turns :
        {q q' : Queue J} {p p' : Option (Entry J)} (log log' : List (Ran J))
        → turn q p log ≡ some (record { queue = q'; pending = p'; log = log' })
        → Step q p q' p'
    closes : (q : Queue J) (p : Option (Entry J)) → Step q p (close q) p

  pub data Reach (q₀ : Queue J) : Queue J → Option (Entry J) → Type 0 where
    here : Reach q₀ q₀ none
    next :
        {q q' : Queue J} {p p' : Option (Entry J)} → Reach q₀ q p → Step q p q' p' → Reach q₀ q' p'

  Step-IsBounded :
      {q q' : Queue J} {p p' : Option (Entry J)} → Step q p q' p' → IsBounded q p → IsBounded q' p'
  unfolding close
  Step-IsBounded (submits q p js) b = submit_group-IsBounded q js p b
  Step-IsBounded (enqueues q p c e z) b = enqueue-IsBounded q c e p z b
  Step-IsBounded (turns log log' h) b = turn-IsBounded _ _ log b h
  Step-IsBounded (closes q p) b = record {
    exact = b.exact;
    within = b.within;
    at_least = b.at_least;
    at_most = b.at_most;
  }

  Reach-IsBounded :
      {q₀ q : Queue J} {p : Option (Entry J)} → IsBounded q₀ none → Reach q₀ q p → IsBounded q p
  Reach-IsBounded b here = b
  Reach-IsBounded b (next r s) = Step-IsBounded s (Reach-IsBounded b r)

  new_queue-IsBounded : (workers : ℕ) → IsBounded (new_queue workers) none
  unfolding new_queue queue_capacity
  new_queue-IsBounded workers = ground arith

  -- However clients and the writer interleave, the jobs that wait in a new writer's channel, those
  -- inside its groups included, never exceed its capacity, which lies between 8 and 256.
  pub queue-IsBounded :
      (workers : ℕ) {q : Queue J} {p : Option (Entry J)}
      → Reach (new_queue workers) q p
      → IsBounded q p
  queue-IsBounded workers r = Reach-IsBounded (new_queue-IsBounded workers) r
