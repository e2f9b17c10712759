-- ===== src/Messages/Idempotency.antt =====
-- A message is stored once: its number, its rows, and what a retry of the same operation gets.
use qgramm.Common.{
  ℕ, String, subst, All, [], ◌∷◌, ◌+◌, ◌≡◌, refl, sym, ◌∙◌, Bool, true, false, ◌&&◌, List, Option,
  none, some, arith, str_eq, eq_iff, eq_refl, ok, require, ap, >>=-eq-ok, find-append,
  require-eq-ok, row_or-eq-ok,
}
use qgramm.Store.{
  Bytes, Identity, Db, Engine, Chat, Operation, find_chat, find_operation, find_message, head_seq,
  push_event, head_seq-found, append, written, append-Appended, head_seq-push_event_self, storage,
}
use qgramm.Messages.{
  is_none, Message, Codec, Draft, Hook, new_message, message_row, operation_row, insert_message,
  run_hooks, persist_fresh, replay, settle, persist_message,
}
use qgramm.Messages.Access.{IsAccepted, persist-IsAccepted}

is_none-true {ℓ} : {A : Type ℓ} (o : Option A) → is_none o ≡ true → o ≡ none
is_none-true none h = refl
is_none-true (some a) h = cc

-- Every hook accepts the message in the state given.
abbrev pub IsPassed : List Hook → Db → Identity → String → Message → Type 0
IsPassed hooks db id chat m = All (λ hook. hook db id chat m ≡ ok tt) hooks

-- One Append, then the two INSERTs, and a new message id.
pub record IsFresh (e : Engine) (k : Codec) (io : ℕ → Bool) (db : Db) (d : Draft) (now : ℕ)
    (r : Db × Message × Bool) : Type 0 where
  pub seq : ℕ
  pub mid : Db
  pub appended :
      append e (io 2) (io 3) db d.chat "message.created" d.message_id none now ≡ ok (seq, mid)
  pub unused : find_message d.message_id db.messages ≡ none
  pub result : r ≡ (insert_message k mid d seq now, new_message d seq now, false)

module _ (e : Engine) (k : Codec) (hooks : List Hook) (io : ℕ → Bool) (db : Db) (d : Draft)
    (now : ℕ) where
  pub persist_fresh-IsFresh :
      {r : Db × Message × Bool}
      → persist_fresh e k hooks io db d now ≡ ok r
      → IsFresh e k io db d now r
  unfolding persist_fresh
  persist_fresh-IsFresh {r} h =
      let (a, ha, h1) =
        >>=-eq-ok (append e (io 2) (io 3) db d.chat "message.created" d.message_id none now) _ h in
      let (_, hf, h2) =
        >>=-eq-ok (written (io 4 && is_none (find_message d.message_id db.messages))) _ h1 in
      let (_, _, h3) = >>=-eq-ok (written (io 5)) _ h2 in
      let (_, _, h4) =
        >>=-eq-ok
          (run_hooks hooks (insert_message k a.1 d a.0 now) d.id d.chat (new_message d a.0 now)) _
          h3 in
      let free = require-eq-ok _ _ _ hf in
      record {
        seq = a.0;
        mid = a.1;
        appended = ha;
        unused = is_none-true _ (ground arith);
        result = ground arith;
      }

  -- Every hook that ran has passed in the state that the INSERTs left.
  run_hooks-IsPassed :
      (hs : List Hook) (db' : Db) (m : Message) {u : Unit {0}}
      → run_hooks hs db' d.id d.chat m ≡ ok u
      → IsPassed hs db' d.id d.chat m
  unfolding run_hooks
  run_hooks-IsPassed [] db' m h = tt
  run_hooks-IsPassed (hook ∷ hs) db' m h =
      let (_, first, rest) = >>=-eq-ok (hook db' d.id d.chat m) _ h in
      (first, run_hooks-IsPassed hs db' m rest)

  persist_fresh-IsPassed :
      {db' : Db} {m : Message} {repeated : Bool}
      → persist_fresh e k hooks io db d now ≡ ok (db', m, repeated)
      → IsPassed hooks db' d.id d.chat m
  unfolding persist_fresh
  persist_fresh-IsPassed {db'} {m} h =
      let (a, _, h1) =
        >>=-eq-ok (append e (io 2) (io 3) db d.chat "message.created" d.message_id none now) _ h in
      let (_, _, h2) =
        >>=-eq-ok (written (io 4 && is_none (find_message d.message_id db.messages))) _ h1 in
      let (_, _, h3) = >>=-eq-ok (written (io 5)) _ h2 in
      let (_, checked, h4) =
        >>=-eq-ok
          (run_hooks hooks (insert_message k a.1 d a.0 now) d.id d.chat (new_message d a.0 now)) _
          h3 in
      let to_db : insert_message k a.1 d a.0 now ≡ db' = ground arith in
      let to_m : new_message d a.0 now ≡ m = ground arith in
      subst (λ y. IsPassed hooks db' d.id d.chat y) to_m
        (subst (λ y. IsPassed hooks y d.id d.chat (new_message d a.0 now)) to_db
          (run_hooks-IsPassed hooks (insert_message k a.1 d a.0 now) (new_message d a.0 now)
            checked))

  pub replay-repeated :
      (o : Operation) {r : Db × Message × Bool}
      → replay k db d o ≡ ok r
      → (r.0 ≡ db) × (r.2 ≡ true) × (o.hash ≡ d.hash) × (k.decode_message o.result ≡ some r.1)
  unfolding replay
  replay-repeated o {r} h =
      let (_, hh, h1) = >>=-eq-ok (require (str_eq o.hash d.hash) 409 "operation conflict") _ h in
      let (m, hm, h2) = >>=-eq-ok (storage (k.decode_message o.result)) _ h1 in
      let same = (eq_iff o.hash d.hash).0 (require-eq-ok _ _ _ hh) in
      let read = row_or-eq-ok _ _ _ hm in (ground arith, ground arith, same, ground arith)

  -- A result that is not marked repeated is a fresh message.
  pub settle-IsFresh :
      (o : Option Operation) {db' : Db} {m : Message}
      → settle e k hooks io db d now o ≡ ok (db', m, false)
      → (o ≡ none) × IsFresh e k io db d now (db', m, false)
  unfolding settle
  settle-IsFresh none h = (refl, persist_fresh-IsFresh h)
  settle-IsFresh (some o) h = absurd (ground (arith, replay-repeated o h))

  settle-IsPassed :
      (o : Option Operation) {db' : Db} {m : Message}
      → settle e k hooks io db d now o ≡ ok (db', m, false)
      → IsPassed hooks db' d.id d.chat m
  unfolding settle
  settle-IsPassed none h = persist_fresh-IsPassed h
  settle-IsPassed (some o) h = absurd (ground (arith, replay-repeated o h))

  -- The whole effect of a fresh message, with the number after the chat's head.
  pub record IsNext (db' : Db) (m : Message) : Type 0 where
    pub body : Option Bytes
    pub number : m.seq ≡ head_seq d.chat db.chats + 1
    pub message : m ≡ new_message d m.seq now
    pub shape :
        db'
        ≡ insert_message k
            (push_event db d.chat m.seq "message.created" d.message_id body now)
            d
            m.seq
            now
    pub row : Chat
    pub found : find_chat d.chat db.chats ≡ some row
    pub next : m.seq ≡ row.seq + 1

  pub IsFresh-IsNext :
      {db' : Db} {m : Message} → IsFresh e k io db d now (db', m, false) → IsNext db' m
  unfolding new_message
  IsFresh-IsNext {db'} {m} f =
      let a =
        append-Appended e (io 2) (io 3) db d.chat "message.created" d.message_id none now f.seq
          f.mid f.appended in
      let to_db : db' ≡ insert_message k f.mid d f.seq now = ap (λ r. r.0) f.result in
      let to_m : m ≡ new_message d f.seq now = ap (λ r. r.1) f.result in
      let seq : m.seq ≡ f.seq = ap (λ r. r.seq) to_m in
      record {
        body = a.stored;
        number = omega (arith, seq, a.next, head_seq-found d.chat db.chats a.row a.found);
        message = to_m ∙ ap (λ s. new_message d s now) (sym seq);
        shape =
            to_db
            ∙ ap (λ x. insert_message k x d f.seq now) a.pushed
            ∙ ap
                (λ s.
                  insert_message k
                    (push_event db d.chat s "message.created" d.message_id a.stored now) d s now)
                (sym seq);
        row = a.row;
        found = a.found;
        next = seq ∙ a.next;
      }

  -- The row and the result of a fresh message are found under their keys.
  IsNext-message :
      {db' : Db} {m : Message}
      → IsNext db' m
      → find_message d.message_id db.messages ≡ none
      → find_message m.id db'.messages ≡ some (message_row d m.seq now)
  unfolding insert_message new_message push_event find_message
  IsNext-message {db'} {m} n unused =
      let id : m.id ≡ d.message_id = ap (λ x. x.id) n.message in
      rw (id, ap (λ x. x.messages) n.shape)
        (find-append (λ r. str_eq r.id d.message_id) db.messages (message_row d m.seq now) unused
          (eq_refl d.message_id))

  pub IsNext-operation :
      {db' : Db} {m : Message}
      → IsNext db' m
      → find_operation d.id.device_id d.input.operation_id db.operations ≡ none
      → find_operation d.id.device_id d.input.operation_id db'.operations
        ≡ some (operation_row k d m now)
  unfolding insert_message push_event find_operation
  IsNext-operation {db'} {m} n missing = rw (ap (λ x. x.operations) n.shape) (
      find-append
        (λ o. str_eq o.device_id d.id.device_id && str_eq o.operation_id d.input.operation_id)
        db.operations (operation_row k d (new_message d m.seq now) now) missing
        (rw (eq_refl d.id.device_id) (eq_refl d.input.operation_id))
      ∙ ap (λ x. some (operation_row k d x now)) (sym n.message))

  -- A message that is accepted and not a repetition came from a sender who passes the checks of seat,
  -- chat and epoch, passed each of the transaction's hooks in the state that it leaves, and is for an
  -- operation that was not known. Its number is one above the chat's head and becomes the head, its
  -- row is found under its id, and the operation is found with its hash and the encoded message.
  pub persist_next :
      {db' : Db} {m : Message}
      → persist_message e k hooks io db d now ≡ ok (db', m, false)
      → IsAccepted db d
        × All (λ hook. hook db' d.id d.chat m ≡ ok tt) hooks
        × (find_operation d.id.device_id d.input.operation_id db.operations ≡ none)
        × (m.seq ≡ head_seq d.chat db.chats + 1)
        × (head_seq d.chat db'.chats ≡ m.seq)
        × (find_message m.id db'.messages ≡ some (message_row d m.seq now))
        × (find_operation d.id.device_id d.input.operation_id db'.operations
            ≡ some (operation_row k d m now))
  unfolding insert_message push_event
  persist_next {db'} {m} h =
      let (acc, s) = persist-IsAccepted e k hooks io db d now h in
      let (missing, f) = settle-IsFresh _ s in
      let n = IsFresh-IsNext f in
      (
        acc,
        settle-IsPassed _ s,
        missing,
        n.number,
        rw (ap (λ x. x.chats) n.shape) (
            head_seq-push_event_self db d.chat m.seq "message.created" d.message_id n.body now
              n.found n.next),
        IsNext-message n f.unused,
        IsNext-operation n missing,
      )
