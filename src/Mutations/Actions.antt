-- ===== src/Mutations/Actions.antt =====
-- What edit.go, delete.go and reactions.go do around and inside mutate.
use qgramm.Common.{
  ℕ, ◌+◌, String, Bool, true, false, not, ◌&&◌, ◌||◌, Option, none, some, List, [], ◌∷◌, ◌++◌,
  length, any_row, update_rows, delete_rows, str_eq, ltb, leb, ◌==◌, if◌then◌else◌, Outcome, ok,
  err, require, row_or, ◌>>=◌, ◌>>◌,
}
use qgramm.Store.{
  Bytes, Identity, Db, Engine, message_aad, Chat, StoredMessage, ReactionRow, HiddenRow, find_chat,
  member, append,
}
use qgramm.Messages.{MessageInput, PrepareHook}
use qgramm.Mutations.Mutate.{edit, deletion, reaction, Writes, mutate}

-- A Go error inside the action is forgotten: mutate answers 409 for any.
abbrev pub state_of : Outcome (ℕ × Db) → Option Db
state_of (ok r) = some r.1
state_of (err e) = none

abbrev appended : Engine → (ℕ → Bool) → Db → String → String → String → ℕ → Option Db
appended e io db chat kind message now =
    state_of (append e (io 6) (io 7) db chat kind message none now)

-- UPDATE messages SET payload=?,revision=revision+1,epoch=?,device_id=?,operation_id=? WHERE id=?
unfoldable pub edit_row :
    String → Bytes → ℕ → Identity → String → List StoredMessage → List StoredMessage
edit_row message payload epoch id operation =
    update_rows (λ m. str_eq m.id message)
      (λ m. record m {
        payload = payload;
        revision = m.revision + 1;
        epoch = epoch;
        device_id = id.device_id;
        operation_id = operation;
      })

-- What the handler of an edit read before the transaction.
pub record Edit : Type 0 where
  pub chat : String
  pub message : String
  pub operation : String
  pub epoch : ℕ
  pub payload : Bytes

abbrev edited : Engine → (ℕ → Bool) → Db → Identity → Edit → ℕ → ℕ → Option Bytes → Option Db
edited e io db id x epoch now none = none
edited e io db id x epoch now (some payload) =
    if io 5
    then appended e io
        (record db { messages = edit_row x.message payload epoch id x.operation db.messages })
        x.chat "message.edited" x.message now
    else none

abbrev may_edit : Chat → Bool → ℕ → Bool
may_edit c can_send epoch = can_send && not c.pending && (epoch == c.epoch)

-- The permission and the epoch are read again inside the transaction.
unfoldable pub edit_fn : Engine → (ℕ → Bool) → Identity → Edit → ℕ → Writes
unfolding edit_row
edit_fn e io id x now db t = elim (find_chat x.chat db.chats) [
  | none ↦ none
  | some c ↦ elim (member db id.user_id x.chat) [
    | none ↦ none
    | some m ↦
        if may_edit c m.can_send x.epoch
        then edited e io db id x c.epoch now (e.seal x.payload (message_aad x.message))
        else none
  ]
]

-- UPDATE messages SET deleted=1,payload=X'',metadata='{}',revision=revision+1 WHERE id=?
unfoldable pub clear_row : String → List StoredMessage → List StoredMessage
clear_row message =
    update_rows (λ m. str_eq m.id message)
      (λ m. record m {
        deleted = true;
        payload = [];
        metadata = 123 ∷ 125 ∷ [];
        revision = m.revision + 1;
      })

abbrev hide : String → String → List HiddenRow → List HiddenRow
hide message user hs =
    if any_row (λ h. str_eq h.message_id message && str_eq h.user_id user) hs
    then hs
    else hs ++ record { message_id = message; user_id = user } ∷ []

-- Policy.DeleteMode "author_only" hides the message from the one who asks; else its content goes, with
-- what the OnDelete hooks remove.
unfoldable pub delete_fn :
    Engine
    → (ℕ → Bool)
    → (Db → String → Option Db)
    → String
    → Identity
    → String
    → String
    → ℕ
    → Writes
unfolding clear_row
delete_fn e io on_delete delete_mode id chat message now db t =
    if str_eq delete_mode "author_only"
    then (if io 5
        then appended e io (record db { hidden = hide message id.user_id db.hidden }) chat
            "message.hidden" message now
        else none)
    else if t.message.deleted
    then some db
    else if not (io 5)
    then none
    else elim (on_delete (record db { messages = clear_row message db.messages }) message) [
      | none ↦ none
      | some db' ↦ appended e io db' chat "message.deleted" message now
    ]

abbrev is_reaction : String → String → ℕ → ReactionRow → Bool
is_reaction message user kind r =
    str_eq r.message_id message && str_eq r.user_id user && (r.kind == kind)

-- DELETE, or INSERT OR IGNORE.
unfoldable pub put_reaction : Bool → String → String → ℕ → List ReactionRow → List ReactionRow
put_reaction true message user kind rs = delete_rows (is_reaction message user kind) rs
put_reaction false message user kind rs =
    if any_row (is_reaction message user kind) rs
    then rs
    else rs ++ record { message_id = message; user_id = user; kind = kind } ∷ []

unfoldable pub reaction_fn :
    Engine → (ℕ → Bool) → Identity → String → String → ℕ → Bool → ℕ → Writes
unfolding put_reaction
reaction_fn e io id chat message kind remove now db t =
    if t.message.deleted || not (io 5)
    then none
    else appended e io
        (record db { reactions = put_reaction remove message id.user_id kind db.reactions }) chat
        "reaction.updated" message now

-- POST .../reactions: `kinds` is the number of configured reactions.
unfoldable pub react :
    Engine
    → (ℕ → Bool)
    → ℕ
    → Db
    → Identity
    → String
    → String
    → String
    → String
    → ℕ
    → Bool
    → Bytes
    → ℕ
    → Outcome Db
unfolding reaction_fn
react e io kinds db id chat message operation hash kind remove result now = do
  require (ltb kind kinds) 400 "unknown reaction type"
  mutate reaction "" io (reaction_fn e io id chat message kind remove now) db id chat message
      operation hash 0 result now

-- DELETE .../messages/{message}
unfoldable pub delete_message :
    Engine
    → (ℕ → Bool)
    → (Db → String → Option Db)
    → String
    → Db
    → Identity
    → String
    → String
    → String
    → String
    → Bytes
    → ℕ
    → Outcome Db
unfolding delete_fn
delete_message e io on_delete delete_mode db id chat message operation hash result now =
    mutate deletion delete_mode io (delete_fn e io on_delete delete_mode id chat message now) db id
      chat message operation hash 0 result now

abbrev run_prepare : List PrepareHook → Identity → String → MessageInput → Outcome MessageInput
run_prepare [] id chat input = ok input
run_prepare (h ∷ hs) id chat input =
    row_or (elim (h id chat input) [ ok i ↦ some i | err e ↦ none ]) 400 "invalid replacement"
    >>= λ i. run_prepare hs id chat i

abbrev is_empty {ℓ} : {A : Type ℓ} → List A → Bool
is_empty [] = true
is_empty (a ∷ rest) = false

-- PATCH .../messages/{message}: `open_envelope` is Engine.OpenEnvelope under the binding of the request.
unfoldable pub edit_message :
    Engine
    → (Bytes → Option Bytes)
    → List PrepareHook
    → (ℕ → Bool)
    → ℕ
    → Db
    → Identity
    → String
    → String
    → MessageInput
    → String
    → ℕ
    → Bytes
    → ℕ
    → Outcome Db
unfolding edit_fn
edit_message e open_envelope hooks io max_bytes db id chat message input hash expected result now =
    do
      require (io 8) 404 "chat not found"
      c ← row_or (find_chat chat db.chats) 404 "chat not found"
      require (not c.pending) 409 "epoch transition pending"
      opened ←
          if str_eq c.mode "basic"
          then (do
            env ← row_or input.envelope 400 "encrypted envelope required"
            raw ← row_or (open_envelope env) 400 "invalid envelope"
            ok (record input { payload = raw }))
          else ok input
      ready ← run_prepare hooks id chat opened
      require (ltb 0 (length ready.payload) && leb (length ready.payload) max_bytes) 400
          "invalid payload size"
      require
          (str_eq ready.reply_to "" && str_eq ready.forward_from "" && is_empty ready.attachments)
          400 "edit changes text payload only"
      mutate edit "" io
          (edit_fn e io id
            (record {
              chat = chat;
              message = message;
              operation = input.operation_id;
              epoch = c.epoch;
              payload = ready.payload;
            })
            now)
          db id chat message input.operation_id hash expected result now
