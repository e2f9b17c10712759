-- ===== src/Writer/Serial.antt =====
-- The batch against its specification: jobs run one after another, each on the last good state.
use qgramm.Common.{
  ℕ, ◌+◌, ◌≡◌, refl, sym, subst, ap, ap₂, ◌∙◌, ◌⊎◌, inl, inr, Bool, true, List, [], ◌∷◌, Option,
  none, some, arith, Outcome-cases, ApiError, Outcome, ok, err,
}
use qgramm.Writer.{
  Transactions, IsTransactional, Job, TxState, live, broken, Loop, fresh, checked, undo, keep,
  after_run, run_job, batch_step, batch_loop, in_state, in_context,
}

module _ {A : Type 0} where
  abbrev pub news : Outcome (A × Bool) → ℕ
  news (ok (m, repeated)) = fresh repeated
  news (err e) = 0

  -- How many results report a new message.
  abbrev pub new_count : List (Outcome (A × Bool)) → ℕ
  new_count [] = 0
  new_count (r ∷ rs) = news r + new_count rs

module _ {D A : Type 0} where
  abbrev pub started : Option ApiError → Job D A → D → D × Outcome (A × Bool)
  started (some e) j d = (d, err e)
  started none j d = let (d', r) = j.body d in (d', checked j.ctx_end r)

  abbrev pub accepted : D → D × Outcome (A × Bool) → D × Outcome (A × Bool)
  accepted d (d', ok r) = (d', ok r)
  accepted d (d', err e) = (d, err e)

  -- One job alone: a job that is cancelled, fails, or is cancelled while it runs leaves nothing.
  unfoldable pub serial_job : Job D A → D → D × Outcome (A × Bool)
  serial_job j d = accepted d (started j.ctx_start j d)

  unfoldable pub serial : List (Job D A) → D → D × List (Outcome (A × Bool))
  serial [] d = (d, [])
  serial (j ∷ js) d = let (d', r) = serial_job j d in let (d'', rs) = serial js d' in (d'', r ∷ rs)

module _ {D A : Type 0} (t : Transactions D (Outcome (A × Bool))) where
  -- What holds of the transaction as long as it is usable.
  abbrev pub While : (t.Tx → Type 0) → TxState t.Tx → Type 0
  While P (live x) = P x
  While P (broken x e) = Unit

  pub While-map :
      {P Q : t.Tx → Type 0} (w : TxState t.Tx) → ((x : t.Tx) → P x → Q x) → While P w → While Q w
  While-map (live x) f h = f x h
  While-map (broken x e) f h = tt

  abbrev left_by : Outcome (A × Bool) → t.Tx → D
  left_by (ok r) x = t.view x
  left_by (err e) x = t.mark x

  -- What a job that ran on `d` and gave `r` leaves, with the message count.
  abbrev pub Matches : Loop t.Tx → D × Outcome (A × Bool) → Outcome (A × Bool) × Loop t.Tx → Type 0
  Matches s p (r, s') = While (λ y. (p ≡ (t.view y, r)) × (s'.changed ≡ s.changed + news r)) s'.tx

  pub tx-cases :
      (w : TxState t.Tx)
      → ((x : t.Tx) × (w ≡ live x)) ⊎ ((o : Option t.Tx) × (e : ApiError) × (w ≡ broken o e))
  tx-cases (live x) = inl (x, refl)
  tx-cases (broken o e) = inr (o, e, refl)

  pub While-broken :
      (P : t.Tx → Type 0) (w : TxState t.Tx) (o : Option t.Tx) (e : ApiError)
      → w ≡ broken o e
      → While P w
  While-broken P w o e h = subst (While P) (sym h) tt

  context-broken :
      (many : Bool) (s : Loop t.Tx) (j : Job D A) (c : Option ApiError) (o : Option t.Tx)
      (e : ApiError)
      → s.tx ≡ broken o e
      → ((in_context t many s j c).1.tx ≡ broken o e) × (news (in_context t many s j c).0 ≡ 0)
  context-broken many s j (some x) o e h = (h, refl)
  context-broken many s j none o e h =
      subst
        (λ w. ((in_state t many s j w).1.tx ≡ broken o e) × (news (in_state t many s j w).0 ≡ 0))
        (sym h) (h, refl)

  pub loop-broken :
      (many : Bool) (s : Loop t.Tx) (js : List (Job D A)) (o : Option t.Tx) (e : ApiError)
      → s.tx ≡ broken o e
      → (batch_loop t many s js).1.tx ≡ broken o e
  unfolding batch_loop batch_step
  loop-broken many s [] o e h = h
  loop-broken many s (j ∷ js) o e h =
      loop-broken many (batch_step t many s j).1 js o e
        (context-broken many s j j.ctx_start o e h).0

module _ {D A : Type 0} (t : Transactions D (Outcome (A × Bool))) (law : IsTransactional t) where
  pub undo_lem : (x : t.Tx) → While t (λ y. t.view y ≡ t.mark x) (undo t x)
  unfolding undo
  undo_lem x = elim (Outcome-cases (t.rollback_to x)) [
    | inl (y, e) ↦ elim (Outcome-cases (t.release y)) [
      | inl (z, f) ↦
          rw (e, undo) (rw (f, undo) (law.view-release y z f ∙ law.view-rollback_to x y e))
      | inr (e', f) ↦ rw (e, undo) (rw (f, undo) tt)
    ]
    | inr (e', f) ↦ rw (f, undo) tt
  ]

  keep_lem :
      (s : Loop t.Tx) (x : t.Tx) (repeated : Bool)
      → While t
          (λ y.
            (t.view y ≡ t.view x) × ((keep t s x repeated).changed ≡ s.changed + fresh repeated))
          (keep t s x repeated).tx
  unfolding keep
  keep_lem s x repeated = elim (Outcome-cases (t.release x)) [
    | inl (y, e) ↦ rw (e, keep) (law.view-release x y e, refl)
    | inr (e', f) ↦ rw (f, keep) tt
  ]

  after_run_lem :
      (s : Loop t.Tx) (j : Job D A) (x : t.Tx) (r : Outcome (A × Bool))
      → ((after_run t true s j x r).0 ≡ r)
        × While t
            (λ y.
              (t.view y ≡ left_by t r x)
              × ((after_run t true s j x r).1.changed ≡ s.changed + news r))
            (after_run t true s j x r).1.tx
  unfolding after_run
  after_run_lem s j x (ok (m, repeated)) = (refl, keep_lem s x repeated)
  after_run_lem s j x (err e) =
      (refl, While-map t (undo t x) (λ y v. (v, omega arith)) (undo_lem x))

  judge_lem :
      (s : Loop t.Tx) (j : Job D A) (z : t.Tx) (d d' : D) (r : Outcome (A × Bool))
      → t.view z ≡ d'
      → t.mark z ≡ d
      → Matches t s (accepted d (d', r)) (after_run t true s j z r)
  unfolding after_run
  judge_lem s j z d d' (ok (m, repeated)) v w =
      While-map t (keep t s z repeated).tx
        (λ y h. (ap₂ (λ a b. (a, b)) (sym v ∙ sym h.0) refl, h.1))
        (after_run_lem s j z (ok (m, repeated))).1
  judge_lem s j z d d' (err e) v w =
      While-map t (undo t z) (λ y h. (ap₂ (λ a b. (a, b)) (sym w ∙ sym h.0) refl, h.1))
        (after_run_lem s j z (err e)).1

  job_lem :
      (s : Loop t.Tx) (j : Job D A) (x y : t.Tx)
      → t.view y ≡ t.view x
      → t.mark y ≡ t.view x
      → Matches t s
          (accepted (t.view x) (started none j (t.view x)))
          (after_run t true s j (t.exec j.body y).0 (checked j.ctx_end (t.exec j.body y).1))
  job_lem s j x y v m =
      subst
        (λ q.
          Matches t s (accepted (t.view x) ((j.body (t.view x)).0, checked j.ctx_end q))
            (after_run t true s j (t.exec j.body y).0 (checked j.ctx_end (t.exec j.body y).1)))
        (law.result-exec j.body y ∙ ap (λ d. (j.body d).1) v)
        (judge_lem s j (t.exec j.body y).0 (t.view x) (j.body (t.view x)).0
          (checked j.ctx_end (t.exec j.body y).1)
          (law.view-exec j.body y ∙ ap (λ d. (j.body d).0) v) (law.mark-exec j.body y ∙ m))

  run_lem :
      (s : Loop t.Tx) (j : Job D A) (x : t.Tx)
      → Matches t s (accepted (t.view x) (started none j (t.view x))) (run_job t true s j x)
  unfolding run_job
  run_lem s j x = elim (Outcome-cases (t.savepoint x)) [
    | inl (y, e) ↦
        rw (e, run_job) (job_lem s j x y (law.view-savepoint x y e) (law.mark-savepoint x y e))
    | inr (e', f) ↦ rw (f, run_job) tt
  ]

  context_lem :
      (s : Loop t.Tx) (j : Job D A) (x : t.Tx) (o : Option ApiError)
      → s.tx ≡ live x
      → Matches t s (accepted (t.view x) (started o j (t.view x))) (in_context t true s j o)
  context_lem s j x none h =
      subst
        (λ w. Matches t s (accepted (t.view x) (started none j (t.view x))) (in_state t true s j w))
        (sym h) (run_lem s j x)
  context_lem s j x (some e) h =
      subst (While t (λ y. ((t.view x, err e) ≡ (t.view y, err e)) × (s.changed ≡ s.changed + 0)))
        (sym h) (refl, omega arith)

  step_lem :
      (s : Loop t.Tx) (j : Job D A) (x : t.Tx)
      → s.tx ≡ live x
      → Matches t s (serial_job j (t.view x)) (batch_step t true s j)
  unfolding batch_step serial_job
  step_lem s j x h = context_lem s j x j.ctx_start h

  -- The whole loop from a usable transaction, against the serial run from what it sees.
  pub loop_lem :
      (s : Loop t.Tx) (js : List (Job D A)) (x : t.Tx)
      → s.tx ≡ live x
      → let (rs, s') = batch_loop t true s js in
        While t
          (λ y. (serial js (t.view x) ≡ (t.view y, rs)) × (s'.changed ≡ s.changed + new_count rs))
          s'.tx
  unfolding batch_loop serial
  loop_lem s [] x h =
      subst (While t (λ y. ((t.view x, []) ≡ (t.view y, [])) × (s.changed ≡ s.changed + 0))) (sym h)
        (refl, omega arith)
  loop_lem s (j ∷ js) x h =
      let s1 = (batch_step t true s j).1 in
      let r = (batch_step t true s j).0 in
      elim (tx-cases t s1.tx) [
        | inl (z, e) ↦
            let st =
              subst
                (While t (λ y.
                  (serial_job j (t.view x) ≡ (t.view y, r)) × (s1.changed ≡ s.changed + news r)))
                e (step_lem s j x h) in
            While-map t (batch_loop t true s1 js).1.tx
              (λ y q. (
                ap (λ p. ((serial js p.0).0, p.1 ∷ (serial js p.0).1)) st.0
                    ∙ ap (λ p. (p.0, r ∷ p.1)) q.0,
                omega (arith, st.1, q.1),
              ))
              (loop_lem s1 js z e)
        | inr (o, e', e) ↦
            While-broken t _ (batch_loop t true s1 js).1.tx o e' (loop-broken t true s1 js o e' e)
      ]
