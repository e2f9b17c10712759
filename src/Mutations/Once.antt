-- ===== src/Mutations/Once.antt =====
-- A mutation is applied once, and only by someone who may.
use qgramm.Common.{
  ℕ, ◌≡◌, refl, sym, ap, ◌∙◌, subst, String, Bool, true, not, ◌&&◌, ◌||◌, none, some, [], ◌∷◌, ◌++◌,
  arith, str_eq, str_len, leb, ltb, eq_refl, Option-cases, inl, inr, if◌then◌else◌, find-append,
  Bool-cases, ok, err, require, row_or, >>=-eq-ok, require-eq-ok, row_or-eq-ok, ok-injective, ◌≢◌,
  ApiError, Outcome-cases, some-injective,
}
use qgramm.Store.{
  Bytes, Identity, Db, Engine, Operation, find_operation, written, append, append-Appended,
  push_event,
}
use qgramm.Mutations.{
  Action, reaction, Target, Writes, find_target, allowed, fresh_mutation, mutate, mutation_row,
  reaction_fn, react, put_reaction,
}
use qgramm.Mutations.Mutate.{current, settled}
use qgramm.Mutations.Actions.{state_of}

module _ (act : Action) (mode : String) (io : ℕ → Bool) (fn : Writes) (db : Db) (id : Identity)
    (chat message operation hash : String) (expected : ℕ) (result : Bytes) (now : ℕ) where
  -- The effect of a mutation that was not known: what the action wrote, and its operation.
  pub record IsApplied (db' : Db) : Type 0 where
    pub target : Target
    pub seen : find_target db id chat message ≡ some target
    pub may : allowed act mode id target ≡ true
    pub fits : current act expected target ≡ true
    pub mid : Db
    pub wrote : fn db target ≡ some mid
    pub shape : db' ≡ record mid {
      operations = mid.operations ++ mutation_row id operation hash result now ∷ [];
    }

  pub mutate-settled :
      {db' : Db}
      → mutate act mode io fn db id chat message operation hash expected result now ≡ ok db'
      → (not (str_eq operation "") && leb (str_len operation) 128 ≡ true)
        × (settled act mode io fn db id chat message operation hash expected result now
              (find_operation id.device_id operation db.operations)
            ≡ ok db')
  unfolding mutate
  mutate-settled h =
      let (_, name, h1) =
        >>=-eq-ok
          (require (not (str_eq operation "") && leb (str_len operation) 128) 400
            "operation_id required")
          _ h in
      let (_, _, h2) = >>=-eq-ok (written (io 0 && io 1)) _ h1 in (require-eq-ok _ _ _ name, h2)

  fresh_mutation-IsApplied :
      {db' : Db}
      → fresh_mutation act mode io fn db id chat message operation hash expected result now ≡ ok db'
      → IsApplied db'
  unfolding fresh_mutation
  fresh_mutation-IsApplied h =
      let (_, _, h1) = >>=-eq-ok (require (io 2) 404 "message inaccessible") _ h in
      let (t, seen, h2) =
        >>=-eq-ok (row_or (find_target db id chat message) 404 "message inaccessible") _ h1 in
      let (_, may, h3) = >>=-eq-ok (require (allowed act mode id t) 403 "operation denied") _ h2 in
      let (_, fits, h4) =
        >>=-eq-ok (require (current act expected t) 409 "message deleted or revision conflict") _
          h3 in
      let (mid, wrote, h5) = >>=-eq-ok (row_or (fn db t) 409 "mutation rejected") _ h4 in
      let (_, _, h6) = >>=-eq-ok (written (io 3 && io 4)) _ h5 in
      record {
        target = t;
        seen = row_or-eq-ok _ _ _ seen;
        may = require-eq-ok _ _ _ may;
        fits = require-eq-ok _ _ _ fits;
        mid = mid;
        wrote = row_or-eq-ok _ _ _ wrote;
        shape = sym (ok-injective _ _ h6);
      }

  -- A mutation of a new operation that is accepted is of a message that its sender sees, which the sender
  -- may act on and whose revision an edit names, and stores exactly what the action wrote and its operation.
  pub mutate-IsApplied :
      {db' : Db}
      → find_operation id.device_id operation db.operations ≡ none
      → mutate act mode io fn db id chat message operation hash expected result now ≡ ok db'
      → IsApplied db'
  mutate-IsApplied {db'} new h = fresh_mutation-IsApplied (
      subst
        (λ o.
          settled act mode io fn db id chat message operation hash expected result now o ≡ ok db')
        new (mutate-settled h).1)

  -- The operation is found under its key.
  abbrev IsFound : Db → Type 0
  IsFound s =
      (o : Operation) × (find_operation id.device_id operation s.operations ≡ some o)
      × (str_eq o.hash hash ≡ true)

  applied-IsFound :
      {db' : Db}
      → ((t : Target) (mid : Db) → fn db t ≡ some mid → mid.operations ≡ db.operations)
      → find_operation id.device_id operation db.operations ≡ none
      → IsApplied db'
      → IsFound db'
  unfolding find_operation mutation_row
  applied-IsFound keeps new a =
      let row = mutation_row id operation hash result now in
      subst IsFound (sym a.shape) (
        row,
        find-append (λ o. str_eq o.device_id id.device_id && str_eq o.operation_id operation)
            a.mid.operations row
            (subst (λ ops. find_operation id.device_id operation ops ≡ none)
              (sym (keeps a.target a.mid a.wrote)) new)
            (ground (arith, eq_refl id.device_id, eq_refl operation)),
        eq_refl hash,
      )

  replayed-IsFound :
      {db' : Db} (o : Operation)
      → find_operation id.device_id operation db.operations ≡ some o
      → settled act mode io fn db id chat message operation hash expected result now (some o)
        ≡ ok db'
      → IsFound db'
  replayed-IsFound o found h =
      let (_, same, h1) = >>=-eq-ok (require (str_eq o.hash hash) 409 "operation conflict") _ h in
      subst IsFound (ok-injective _ _ h1) (o, found, require-eq-ok _ _ _ same)

  -- The operation is found with its hash afterwards, if the action itself stores no operations.
  mutate-IsFound :
      {db' : Db}
      → ((t : Target) (mid : Db) → fn db t ≡ some mid → mid.operations ≡ db.operations)
      → mutate act mode io fn db id chat message operation hash expected result now ≡ ok db'
      → IsFound db'
  mutate-IsFound {db'} keeps h =
      elim (Option-cases (find_operation id.device_id operation db.operations)) [
        | inl e ↦ applied-IsFound keeps e (mutate-IsApplied e h)
        | inr (o, e) ↦ replayed-IsFound o e (
            subst
              (λ x.
                settled act mode io fn db id chat message operation hash expected result now x
                ≡ ok db')
              e (mutate-settled h).1)
      ]

state_of-err : (x : ApiError) {mid : Db} → state_of (err x) ≢ some mid
state_of-err x h = cc

append-operations :
    (e : Engine) (u i : Bool) (db : Db) (chat kind message : String) (now : ℕ) {mid : Db}
    → state_of (append e u i db chat kind message none now) ≡ some mid
    → mid.operations ≡ db.operations
unfolding push_event
append-operations e u i db chat kind message now {mid} h =
    elim (Outcome-cases (append e u i db chat kind message none now)) [
      | inl ((seq, db'), q) ↦
          let a = append-Appended e u i db chat kind message none now seq db' q in
          let same : db' ≡ mid = some-injective _ _ (subst (λ o. state_of o ≡ some mid) q h) in
          ap (λ x. x.operations) (sym same ∙ a.pushed)
      | inr (x, q) ↦ absurd (state_of-err x (subst (λ o. state_of o ≡ some mid) q h))
    ]

-- A known operation with the same hash is answered without a change.
mutate-replay :
    (act : Action) (mode : String) (io : ℕ → Bool) (fn : Writes) (db : Db) (id : Identity)
    (chat message operation hash : String) (expected : ℕ) (result : Bytes) (now : ℕ) (o : Operation)
    → io 0 && io 1 ≡ true
    → not (str_eq operation "") && leb (str_len operation) 128 ≡ true
    → find_operation id.device_id operation db.operations ≡ some o
    → str_eq o.hash hash ≡ true
    → mutate act mode io fn db id chat message operation hash expected result now ≡ ok db
unfolding mutate
mutate-replay act mode io fn db id chat message operation hash expected result now o i name found
      same =
    rw (name, i, found, same) refl

module _ (e : Engine) (kinds : ℕ) (db : Db) (id : Identity) (chat message operation hash : String)
    (kind : ℕ) (remove : Bool) (result : Bytes) where
  reaction_fn-operations :
      (io : ℕ → Bool) (now : ℕ) (t : Target) (mid : Db)
      → reaction_fn e io id chat message kind remove now db t ≡ some mid
      → mid.operations ≡ db.operations
  unfolding reaction_fn push_event
  reaction_fn-operations io now t mid h = elim (Bool-cases (t.message.deleted || not (io 5))) [
    | inl q ↦ absurd (ground (arith, q, h))
    | inr q ↦
        append-operations e (io 6) (io 7)
          (record db { reactions = put_reaction remove message id.user_id kind db.reactions }) chat
          "reaction.updated" message now
          (subst
            (λ b.
              (if b
                then none
                else state_of (
                    append e (io 6) (io 7)
                      (record db {
                        reactions = put_reaction remove message id.user_id kind db.reactions;
                      })
                      chat "reaction.updated" message none now))
              ≡ some mid)
            q h)
  ]

  -- A reaction that was accepted, sent again under the same operation, is acknowledged and changes nothing,
  -- as long as the statements of the second call get through.
  pub react_again :
      (io io' : ℕ → Bool) (now later : ℕ) {db' : Db}
      → react e io kinds db id chat message operation hash kind remove result now ≡ ok db'
      → io' 0 && io' 1 ≡ true
      → react e io' kinds db' id chat message operation hash kind remove result later ≡ ok db'
  unfolding react
  react_again io io' now later {db'} h i =
      let (_, known, h1) = >>=-eq-ok (require (ltb kind kinds) 400 "unknown reaction type") _ h in
      let fn = reaction_fn e io id chat message kind remove now in
      let (o, found, same) =
        mutate-IsFound reaction "" io fn db id chat message operation hash 0 result now
          (reaction_fn-operations io now) h1 in
      let name =
        (mutate-settled reaction "" io fn db id chat message operation hash 0 result now h1).0 in
      rw (require-eq-ok _ _ _ known) (
        mutate-replay reaction "" io' (reaction_fn e io' id chat message kind remove later) db' id
          chat message operation hash 0 result later o i name found same)
