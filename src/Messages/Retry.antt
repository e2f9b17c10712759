-- ===== src/Messages/Retry.antt =====
-- A retry of an accepted operation, whatever id and ciphertext it was prepared with again.
use qgramm.Common.{
  ℕ, ◌+◌, ◌≡◌, ap, ◌∙◌, String, Bool, true, false, List, Option, none, some, ==_iff, str_eq,
  eq_refl, ok, fail,
}
use qgramm.Store.{
  Bytes, Db, Engine, find_seat, find_operation, Operation, push_event, IsJournal, append-IsJournal,
  find_chat-bump_seq_self,
}
use qgramm.Messages.{
  Message, Codec, Draft, Hook, insert_message, operation_row, replay, settle, persist_message,
}
use qgramm.Messages.Access.{IsAccepted, persist-IsAccepted}
use qgramm.Messages.Idempotency.{
  IsNext, settle-IsFresh, IsFresh-IsNext, IsNext-operation, persist_fresh-IsFresh, replay-repeated,
}

-- The same operation, prepared again: a new message id, ciphertext and metadata.
abbrev pub again : Draft → String → Bytes → Bytes → Draft
again d id stored metadata = record d { message_id = id; stored = stored; metadata = metadata }

-- With the checks passed, the call comes down to the lookup of the operation.
persist_message-settle :
    (e : Engine) (k : Codec) (hooks : List Hook) (io : ℕ → Bool) (db : Db) (d : Draft) (now : ℕ)
    → io 0 ≡ true
    → io 1 ≡ true
    → IsAccepted db d
    → persist_message e k hooks io db d now
      ≡ settle e k hooks io db d now
          (find_operation d.id.device_id d.input.operation_id db.operations)
unfolding persist_message
persist_message-settle e k hooks io db d now i0 i1 a = rw (
  i0,
  a.seated,
  a.found,
  a.live,
  a.may_send,
  a.settled,
  (==_iff d.epoch a.chat.epoch).1 a.current,
  i1,
)

module _ (e : Engine) (k : Codec) (hooks : List Hook) (io : ℕ → Bool) (db : Db) (d : Draft)
    (now : ℕ) where
  -- The checks still pass in the state that the message left behind.
  IsNext-IsAccepted :
      {db' : Db} {m : Message}
      → IsAccepted db d
      → IsNext e k hooks io db d now db' m
      → IsAccepted db' d
  unfolding insert_message push_event find_seat
  IsNext-IsAccepted {db'} {m} a n = rw n.shape (record {
    seat = a.seat;
    seated = a.seated;
    chat = record (a.chat) { seq = a.chat.seq + 1 };
    found = find_chat-bump_seq_self d.chat db.chats a.found;
    live = a.live;
    may_send = a.may_send;
    settled = a.settled;
    current = a.current;
  })

  -- Once a message was accepted, the same operation is answered with that message, marked repeated,
  -- and changes nothing, as long as its two statements get through and the stored result decodes.
  pub persist_retry :
      {db' : Db} {m : Message}
      → persist_message e k hooks io db d now ≡ ok (db', m, false)
      → k.decode_message (k.encode_message m) ≡ some m
      → (io' : ℕ → Bool) (later : ℕ) (id : String) (stored metadata : Bytes) → io' 0 ≡ true
      → io' 1 ≡ true
      → persist_message e k hooks io' db' (again d id stored metadata) later ≡ ok (db', m, true)
  unfolding settle replay operation_row
  persist_retry {db'} {m} h round io' later id stored metadata i0 i1 =
      let (acc, s) = persist-IsAccepted e k hooks io db d now h in
      let (missing, f) = settle-IsFresh e k hooks io db d now _ s in
      let n = IsFresh-IsNext e k hooks io db d now f in
      let acc' = IsNext-IsAccepted acc n in
      persist_message-settle e k hooks io' db' (again d id stored metadata) later i0 i1 (record {
        seat = acc'.seat;
        seated = acc'.seated;
        chat = acc'.chat;
        found = acc'.found;
        live = acc'.live;
        may_send = acc'.may_send;
        settled = acc'.settled;
        current = acc'.current;
      })
      ∙ rw (IsNext-operation e k hooks io db d now n missing, settle) (rw (eq_refl d.hash, round))

  -- In the state that an accepted message left, reuse of its operation's id is refused when the
  -- hash of the input differs, whatever message id, ciphertext, metadata and input it was prepared
  -- with: any draft of the same device, chat, operation and epoch, as long as its two statements
  -- get through.
  pub persist_conflict :
      {db' : Db} {m : Message}
      → persist_message e k hooks io db d now ≡ ok (db', m, false)
      → (io' : ℕ → Bool) (later : ℕ) (d' : Draft) → d'.id ≡ d.id
      → d'.chat ≡ d.chat
      → d'.input.operation_id ≡ d.input.operation_id
      → d'.epoch ≡ d.epoch
      → str_eq d.hash d'.hash ≡ false
      → io' 0 ≡ true
      → io' 1 ≡ true
      → persist_message e k hooks io' db' d' later ≡ fail 409 "operation conflict"
  unfolding settle replay operation_row
  persist_conflict {db'} {m} h io' later d' who there operation epoch other i0 i1 =
      let (acc, s) = persist-IsAccepted e k hooks io db d now h in
      let (missing, f) = settle-IsFresh e k hooks io db d now _ s in
      let n = IsFresh-IsNext e k hooks io db d now f in
      let acc' = IsNext-IsAccepted acc n in
      persist_message-settle e k hooks io' db' d' later i0 i1 (record {
        seat = acc'.seat;
        seated = rw (who, there) acc'.seated;
        chat = acc'.chat;
        found = rw there acc'.found;
        live = acc'.live;
        may_send = acc'.may_send;
        settled = acc'.settled;
        current = epoch ∙ acc'.current;
      })
      ∙ rw (who, operation, IsNext-operation e k hooks io db d now n missing, settle) (rw other)

  settle-IsJournal :
      (o : Option Operation) {r : Db × Message × Bool}
      → IsJournal db
      → settle e k hooks io db d now o ≡ ok r
      → IsJournal r.0
  unfolding settle insert_message
  settle-IsJournal none {r} j h =
      let f = persist_fresh-IsFresh e k hooks io db d now h in
      rw (ap (λ x. x.0) f.result) (
        append-IsJournal e (io 2) (io 3) db d.chat "message.created" d.message_id none now f.seq
          f.mid j f.appended)
  settle-IsJournal (some o) j h = rw (replay-repeated e k hooks io db d now o h).0 j

  -- Every accepted message, fresh or repeated, keeps each event at or below its chat's head.
  pub persist-IsJournal :
      {db' : Db} {m : Message} {repeated : Bool}
      → IsJournal db
      → persist_message e k hooks io db d now ≡ ok (db', m, repeated)
      → IsJournal db'
  persist-IsJournal {db'} {m} {repeated} j h =
      settle-IsJournal (find_operation d.id.device_id d.input.operation_id db.operations) j
        (persist-IsAccepted e k hooks io db d now h).1
