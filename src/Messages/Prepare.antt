-- ===== src/Messages/Prepare.antt =====
-- prepareMessage, sendResult and sendMessage of core/messages.go, around the writer.
use qgramm.Common.{
  ℕ, String, Bool, true, false, not, ◌&&◌, ◌||◌, Option, none, some, List, [], ◌∷◌, length, ltb,
  leb, str_eq, ◌==◌, if◌then◌else◌, Outcome, ok, err, require, row_or, ◌>>=◌, ◌>>◌,
}
use qgramm.Store.{
  Identity, Db, Engine, message_aad, Operation, find_operation, find_live_seat, find_chat,
  find_message, storage, written,
}
use qgramm.Messages.Types.{MessageInput, Message, Codec, Draft, PrepareHook}

-- The configuration that a message is checked against: the features of the build, and the largest payload.
pub record Limits : Type 0 where
  pub reply : Bool
  pub forward : Bool
  pub files : Bool
  pub max_message_bytes : ℕ

-- What is queued: a draft for the writer, or the stored result of the same operation.
pub data Prepared : Type 0 where
  job : Draft → Prepared
  saved : Message → Prepared

abbrev pub is_some {ℓ} : {A : Type ℓ} → Option A → Bool
is_some none = false
is_some (some a) = true

abbrev pub is_empty {ℓ} : {A : Type ℓ} → List A → Bool
is_empty [] = true
is_empty (a ∷ rest) = false

abbrev pub supported : Limits → MessageInput → Bool
supported l input = not (
    (not (str_eq input.reply_to "") && not l.reply)
    || (not (str_eq input.forward_from "") && not l.forward)
    || (not (is_empty input.attachments) && not l.files))

-- The payload: decrypted from the envelope in a basic chat, and left to the hooks in an encrypted one.
unfoldable pub open_payload :
    Codec → Identity → String → String → ℕ → MessageInput → Outcome MessageInput
open_payload k id chat mode epoch input =
    if str_eq mode "basic"
    then (do
      env ← row_or input.envelope 400 "basic HPKE envelope required"
      require (str_eq input.mls "") 400 "basic HPKE envelope required"
      payload ←
          row_or (k.open_envelope env chat id input.operation_id) 400 "invalid encrypted envelope"
      ok (record input { payload = payload }))
    else (do
      require (not (is_some input.envelope) && not (str_eq input.mls "") && (input.epoch == epoch))
          409 "invalid MLS message or epoch"
      ok input)

unfoldable pub run_prepare :
    List PrepareHook → Identity → String → MessageInput → Outcome MessageInput
run_prepare [] id chat input = ok input
run_prepare (h ∷ hs) id chat input = h id chat input >>= λ i. run_prepare hs id chat i

-- A message that no stored operation answers: its checks, its payload, and the sealed draft.
unfoldable pub prepare_fresh :
    Engine
    → Codec
    → Limits
    → List PrepareHook
    → Bool
    → Db
    → Identity
    → String
    → MessageInput
    → String
    → String
    → Outcome Prepared
unfolding open_payload run_prepare
prepare_fresh e k l hooks reads db id chat input hash message_id = do
  require reads 403 "send permission denied"
  c ← row_or (find_chat chat db.chats) 403 "send permission denied"
  s ← row_or (find_live_seat db id chat) 403 "send permission denied"
  require s.member.can_send 403 "send permission denied"
  require (not c.pending) 409 "MLS epoch transition pending"
  require (supported l input) 400 "feature absent from build"
  opened ← open_payload k id chat c.mode c.epoch input
  ready ← run_prepare hooks id chat opened
  require (ltb 0 (length ready.payload) && leb (length ready.payload) l.max_message_bytes) 400
      "invalid message payload size"
  stored ← storage (e.seal ready.payload (message_aad message_id))
  ok (
      job (record {
        id = id;
        chat = chat;
        input = record ready { payload = []; envelope = none; mls = "" };
        mode = c.mode;
        epoch = c.epoch;
        hash = hash;
        message_id = message_id;
        stored = stored;
        metadata = k.encode_metadata (record {
          attachments = ready.attachments;
          forward_from = ready.forward_from;
          reply_to = ready.reply_to;
        });
      }))

-- The stored operation answers before anything else is read.
unfoldable pub answer_prepared :
    Engine
    → Codec
    → Limits
    → List PrepareHook
    → Bool
    → Db
    → Identity
    → String
    → MessageInput
    → String
    → String
    → Option Operation
    → Outcome Prepared
answer_prepared e k l hooks reads db id chat input hash message_id none =
    prepare_fresh e k l hooks reads db id chat input hash message_id
answer_prepared e k l hooks reads db id chat input hash message_id (some o) = do
  require (str_eq o.hash hash) 409 "operation_id reused with different content"
  m ← storage (k.decode_message o.result)
  ok (saved m)

-- `valid` is validID on the operation, `message_id` the new uuid, `io 0` and `io 1` the two reads.
unfoldable pub prepare_message :
    Engine
    → Codec
    → Limits
    → List PrepareHook
    → (String → Bool)
    → (ℕ → Bool)
    → Db
    → Identity
    → String
    → MessageInput
    → String
    → Outcome Prepared
prepare_message e k l hooks valid io db id chat input message_id = do
  require (valid input.operation_id) 400 "operation_id required (1..128 safe characters)"
  written (io 0)
  answer_prepared e k l hooks (io 1) db id chat input (k.hash_input chat input) message_id
      (find_operation id.device_id input.operation_id db.operations)

-- The message exists, and a live device of a member who joined before it asks.
unfoldable pub accessible : Db → Identity → String → Bool
accessible db id message = elim (find_message message db.messages) [
  | none ↦ false
  | some m ↦ elim (find_live_seat db id m.chat_id) [
    | none ↦ false
    | some s ↦ leb s.member.joined_seq m.seq
  ]
]

-- A receipt alone is the stored message; a repeated one asks for access again. `view` is ViewMessage.
unfoldable pub send_result :
    (Identity → String → Outcome Message)
    → Bool
    → Db
    → Identity
    → Message
    → Bool
    → Bool
    → Outcome Message
unfolding accessible
send_result view reads db id m minimal repeated =
    if not minimal
    then view id m.id
    else if repeated
    then (do written reads; require (accessible db id m.id) 404 "message not accessible"; ok m)
    else ok m

-- sendMessage: `write` is the writer on the draft, and the tables afterwards.
unfoldable pub send_message :
    (Identity → String → Outcome Message)
    → Bool
    → (Draft → Outcome (Message × Bool))
    → Db
    → Identity
    → Outcome Prepared
    → Bool
    → Outcome Message
unfolding send_result
send_message view reads write db id (err x) minimal = err x
send_message view reads write db id (ok (saved m)) minimal =
    send_result view reads db id m minimal true
send_message view reads write db id (ok (job d)) minimal = do
  r ← write d
  send_result view reads db id r.0 minimal r.1
