-- ===== src/Messages/Persist.antt =====
-- persistMessageInTx of core/messages.go, and the transaction hooks of modules/reply.go and
-- modules/forward.go.
use qgramm.Common.{
  ℕ, String, Bool, true, false, not, ◌&&◌, List, [], ◌∷◌, ◌++◌, Option, none, some, any_row, str_eq,
  leb, ◌==◌, if◌then◌else◌, Outcome, ok, require, row_or, ◌>>=◌, ◌>>◌,
}
use qgramm.Store.{
  Identity, Db, Engine, StoredMessage, Operation, find_seat, is_live, find_chat, find_message,
  find_operation, append, storage, written,
}
use qgramm.Messages.Types.{Message, Codec, Draft, Hook}

abbrev pub is_none {ℓ} : {A : Type ℓ} → Option A → Bool
is_none none = true
is_none (some a) = false

-- The message that the draft becomes under its sequence number.
unfoldable pub new_message : Draft → ℕ → ℕ → Message
new_message d seq now = record {
  reactions = [];
  id = d.message_id;
  chat_id = d.chat;
  sender = d.id.user_id;
  device_id = d.id.device_id;
  operation_id = d.input.operation_id;
  seq = seq;
  revision = 1;
  deleted = false;
  mode = d.mode;
  epoch = d.epoch;
  created_at = now;
  envelope = none;
  mls = "";
  attachments = d.input.attachments;
  reply_to = d.input.reply_to;
  forward_from = d.input.forward_from;
}

-- The row that goes into messages, and the idempotency result that goes into operations.
unfoldable pub message_row : Draft → ℕ → ℕ → StoredMessage
message_row d seq now = record {
  id = d.message_id;
  chat_id = d.chat;
  sender = d.id.user_id;
  device_id = d.id.device_id;
  operation_id = d.input.operation_id;
  seq = seq;
  revision = 1;
  deleted = false;
  payload = d.stored;
  metadata = d.metadata;
  epoch = d.epoch;
  created_at = now;
}

unfoldable pub operation_row : Codec → Draft → Message → ℕ → Operation
operation_row k d m now = record {
  device_id = d.id.device_id;
  operation_id = d.input.operation_id;
  hash = d.hash;
  result = k.encode_message m;
  created_at = now;
}

-- The two INSERTs.
unfoldable pub insert_message : Codec → Db → Draft → ℕ → ℕ → Db
unfolding new_message message_row operation_row
insert_message k db d seq now = record db {
  messages = db.messages ++ message_row d seq now ∷ [];
  operations = db.operations ++ operation_row k d (new_message d seq now) now ∷ [];
}

unfoldable pub run_hooks : List Hook → Db → Identity → String → Message → Outcome (Unit {0})
run_hooks [] db id chat m = ok tt
run_hooks (hook ∷ hooks) db id chat m =
    let rest = run_hooks hooks db id chat m in hook db id chat m >> rest

-- A message that no stored operation answers for.
unfoldable pub persist_fresh :
    Engine → Codec → List Hook → (ℕ → Bool) → Db → Draft → ℕ → Outcome (Db × Message × Bool)
persist_fresh e k hooks io db d now = do
  r ← append e (io 2) (io 3) db d.chat "message.created" d.message_id none now
  written (io 4 && is_none (find_message d.message_id db.messages))
  written (io 5)
  run_hooks hooks (insert_message k r.1 d r.0 now) d.id d.chat (new_message d r.0 now)
  ok (insert_message k r.1 d r.0 now, new_message d r.0 now, false)

-- The stored result of an operation that ran before, or a conflict.
unfoldable pub replay : Codec → Db → Draft → Operation → Outcome (Db × Message × Bool)
replay k db d o = do
  require (str_eq o.hash d.hash) 409 "operation conflict"
  m ← storage (k.decode_message o.result)
  ok (db, m, true)

-- What the lookup of the operation decides, made again inside the transaction.
unfoldable pub settle :
    Engine
    → Codec
    → List Hook
    → (ℕ → Bool)
    → Db
    → Draft
    → ℕ
    → Option Operation
    → Outcome (Db × Message × Bool)
settle e k hooks io db d now none = persist_fresh e k hooks io db d now
settle e k hooks io db d now (some o) = replay k db d o

-- `io n` says whether the n-th statement of the call gets through.
unfoldable pub persist_message :
    Engine → Codec → List Hook → (ℕ → Bool) → Db → Draft → ℕ → Outcome (Db × Message × Bool)
persist_message e k hooks io db d now = do
  require (io 0) 403 "send permission revoked"
  s ← row_or (find_seat db d.id d.chat) 403 "send permission revoked"
  c ← row_or (find_chat d.chat db.chats) 403 "send permission revoked"
  require (is_live s && s.member.can_send) 403 "send permission revoked"
  require (not c.pending && (d.epoch == c.epoch)) 409 "epoch changed"
  written (io 1)
  settle e k hooks io db d now (find_operation d.id.device_id d.input.operation_id db.operations)

-- SELECT EXISTS(... msg.deleted=0 AND member.user_id=? AND member.active=1 AND
-- msg.seq>=member.joined_seq): the user sees the message.
abbrev sees : Db → String → StoredMessage → Bool
sees db user row =
    not row.deleted
    && any_row
        (λ m.
          str_eq m.chat_id row.chat_id
          && str_eq m.user_id user
          && m.active
          && leb m.joined_seq row.seq)
        db.members

-- modules/reply.go
unfoldable pub reply_hook : Hook
reply_hook db id chat m =
    if str_eq m.reply_to ""
    then ok tt
    else require
        (any_row
          (λ row. str_eq row.id m.reply_to && str_eq row.chat_id chat && sees db id.user_id row)
          db.messages)
        400 "reply target inaccessible"

-- modules/forward.go
unfoldable pub forward_hook : Hook
forward_hook db id chat m =
    if str_eq m.forward_from ""
    then ok tt
    else require
        (any_row (λ row. str_eq row.id m.forward_from && sees db id.user_id row) db.messages) 403
        "forward source inaccessible"
