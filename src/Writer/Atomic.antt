-- ===== src/Writer/Atomic.antt =====
-- A batch commits all its successful jobs or none: what is stored, and what callers are told.
use qgramm.Common.{
  ℕ, ◌+◌, ◌≡◌, refl, sym, subst, ap, ap₂, ◌∙◌, ◌⊎◌, inl, inr, Bool, true, false, List, [], ◌∷◌, map,
  length, Option, none, some, arith, All, ltb, Bool-cases, ApiError, Outcome, ok, err,
}
use qgramm.Writer.{
  Transactions, IsTransactional, Job, TxState, live, broken, Loop, Counters, checked, after_run,
  run_job, batch_step, batch_loop, invalidate, committing, finish_at, finish_batch, final_results,
  execute_batch, in_state, in_context, opened, start_loop,
}
use qgramm.Writer.Serial.{
  started, accepted, serial_job, serial, new_count, While, While-map, While-broken, Matches,
  loop-broken, loop_lem,
}

-- The result reports no new message: an error, or a repetition of a stored one.
abbrev pub IsOld : {A : Type 0} → Outcome (A × Bool) → Type 0
IsOld (ok (m, repeated)) = repeated ≡ true
IsOld (err e) = Unit

module _ {D A : Type 0} (t : Transactions D (Outcome (A × Bool))) (law : IsTransactional t) where
  -- A batch of one runs without a savepoint: its failure breaks the transaction.
  after_run-single :
      (s : Loop t.Tx) (j : Job D A) (z : t.Tx) (d d' : D) (r : Outcome (A × Bool))
      → t.view z ≡ d'
      → Matches t s (accepted d (d', r)) (after_run t false s j z r)
  unfolding after_run
  after_run-single s j z d d' (ok (m, repeated)) v = (ap₂ (λ a b. (a, b)) (sym v) refl, refl)
  after_run-single s j z d d' (err e) v = tt

  step-single :
      (s : Loop t.Tx) (j : Job D A) (x : t.Tx) (c : Option ApiError)
      → s.tx ≡ live x
      → Matches t s (accepted (t.view x) (started c j (t.view x))) (in_context t false s j c)
  unfolding run_job
  step-single s j x (some e) h =
      subst (While t (λ y. ((t.view x, err e) ≡ (t.view y, err e)) × (s.changed ≡ s.changed + 0)))
        (sym h) (refl, omega arith)
  step-single s j x none h =
      subst
        (λ w.
          Matches t s (accepted (t.view x) (started none j (t.view x))) (in_state t false s j w))
        (sym h)
        (subst
          (λ q.
            Matches t s (accepted (t.view x) ((j.body (t.view x)).0, checked j.ctx_end q))
              (after_run t false s j (t.exec j.body x).0 (checked j.ctx_end (t.exec j.body x).1)))
          (law.result-exec j.body x)
          (after_run-single s j (t.exec j.body x).0 (t.view x) (j.body (t.view x)).0
            (checked j.ctx_end (t.exec j.body x).1) (law.view-exec j.body x)))

  -- What the loop of a batch of any size leaves, as long as the transaction is usable.
  abbrev Agrees : D → List (Job D A) → List (Outcome (A × Bool)) × Loop t.Tx → Type 0
  Agrees d js (rs, s) =
      While t (λ y. (serial js d ≡ (t.view y, rs)) × (s.changed ≡ new_count rs)) s.tx

  loop-Agrees :
      (s : Loop t.Tx) (js : List (Job D A)) (x : t.Tx)
      → s.tx ≡ live x
      → s.changed ≡ 0
      → Agrees (t.view x) js (batch_loop t (ltb 1 (length js)) s js)
  unfolding batch_loop batch_step serial serial_job
  loop-Agrees s [] x h z =
      subst (While t (λ y. ((t.view x, []) ≡ (t.view y, [])) × (s.changed ≡ 0))) (sym h) (refl, z)
  loop-Agrees s (j ∷ []) x h z =
      While-map t (in_context t false s j j.ctx_start).1.tx
        (λ y q. (ap (λ p. (p.0, p.1 ∷ [])) q.0, omega (arith, q.1)))
        (step-single s j x j.ctx_start h)
  loop-Agrees s (j ∷ k ∷ js) x h z =
      let big : ltb 1 (length (j ∷ k ∷ js)) ≡ true = ground arith in
      subst (λ b. Agrees (t.view x) (j ∷ k ∷ js) (batch_loop t b s (j ∷ k ∷ js))) (sym big)
        (While-map t (batch_loop t true s (j ∷ k ∷ js)).1.tx (λ y q. (q.0, omega (arith, q.1)))
          (loop_lem t law s (j ∷ k ∷ js) x h))

  All-IsOld-invalidate :
      (e : ApiError) (rs : List (Outcome (A × Bool))) → All IsOld (map (invalidate t e) rs)
  unfolding invalidate
  All-IsOld-invalidate e [] = tt
  All-IsOld-invalidate e (ok r ∷ rs) = (tt, All-IsOld-invalidate e rs)
  All-IsOld-invalidate e (err x ∷ rs) = (tt, All-IsOld-invalidate e rs)

  All-IsOld_of_count : (rs : List (Outcome (A × Bool))) → new_count rs ≡ 0 → All IsOld rs
  All-IsOld_of_count [] h = tt
  All-IsOld_of_count (ok (m, true) ∷ rs) h = (refl, All-IsOld_of_count rs (omega arith))
  All-IsOld_of_count (ok (m, false) ∷ rs) h = absurd (omega arith)
  All-IsOld_of_count (err e ∷ rs) h = (tt, All-IsOld_of_count rs (omega arith))

  -- All or nothing, for a stored state and the results that callers get.
  abbrev AllOrNothing : D → List (Job D A) → D → List (Outcome (A × Bool)) → Type 0
  AllOrNothing d js d' rs = ((d' ≡ d) × All IsOld rs) ⊎ (serial js d ≡ (d', rs))

  committing-AllOrNothing :
      (d : D) (js : List (Job D A)) (rs : List (Outcome (A × Bool))) (n : ℕ) (x : t.Tx)
      (o : Outcome D)
      → t.commit x ≡ o
      → serial js d ≡ (t.view x, rs)
      → let f = committing t d n o in AllOrNothing d js f.stored (final_results t f.batch_err rs)
  unfolding committing final_results
  committing-AllOrNothing d js rs n x (ok d') c h =
      inr (h ∙ ap (λ v. (v, rs)) (sym (law.view-commit x d' c)))
  committing-AllOrNothing d js rs n x (err e) c h = inl (refl, All-IsOld-invalidate e rs)

  rolled_back-IsOld :
      (o : Option ApiError) (rs : List (Outcome (A × Bool)))
      → All IsOld rs
      → All IsOld (final_results t o rs)
  unfolding final_results
  rolled_back-IsOld none rs h = h
  rolled_back-IsOld (some e) rs h = All-IsOld-invalidate e rs

  finish-AllOrNothing :
      (d : D) (js : List (Job D A)) (rs : List (Outcome (A × Bool))) (n : ℕ) (w : TxState t.Tx)
      → While t (λ y. (serial js d ≡ (t.view y, rs)) × (n ≡ new_count rs)) w
      → let f = finish_at t d n w in AllOrNothing d js f.stored (final_results t f.batch_err rs)
  unfolding finish_at final_results
  finish-AllOrNothing d js rs n (broken x e) h = inl (refl, All-IsOld-invalidate e rs)
  finish-AllOrNothing d js rs n (live x) h = elim (Bool-cases (ltb 0 n)) [
    | inl p ↦ rw p (committing-AllOrNothing d js rs n x (t.commit x) refl h.0)
    | inr p ↦ rw p (
        inl
          (refl, rolled_back-IsOld (t.rollback x) rs (All-IsOld_of_count rs (ground (arith, h.1)))))
  ]

  opened-Agrees :
      (d : D) (js : List (Job D A)) (o : Outcome t.Tx)
      → t.begin d ≡ o
      → Agrees d js (
          batch_loop t
            (ltb 1 (length js))
            (record { tx = opened t o; changed = 0; cancelled = 0 })
            js)
  opened-Agrees d js (ok x) e =
      subst
        (λ v. Agrees v js (
          batch_loop t (ltb 1 (length js)) (record { tx = live x; changed = 0; cancelled = 0 }) js))
        (law.view-begin d x e)
        (loop-Agrees (record { tx = live x; changed = 0; cancelled = 0 }) js x refl refl)
  opened-Agrees d js (err e) q = While-broken t _ _ none e (
      loop-broken t (ltb 1 (length js)) (record { tx = broken none e; changed = 0; cancelled = 0 })
        js none e refl)

  -- Whatever fails on the way, a batch leaves either the state it found and no result that reports a
  -- new message, or the state and the results of its jobs run one after another, in which a job that
  -- fails or is cancelled leaves nothing behind.
  pub execute_batch_atomic :
      (d : D) (c : Counters) (js : List (Job D A))
      → let b = execute_batch t d c js in
        ((b.stored ≡ d) × All IsOld b.results) ⊎ (serial js d ≡ (b.stored, b.results))
  unfolding execute_batch finish_batch
  execute_batch_atomic d c js =
      let r = batch_loop t (ltb 1 (length js)) (start_loop t d) js in
      finish-AllOrNothing d js r.0 r.1.changed r.1.tx (opened-Agrees d js (t.begin d) refl)
