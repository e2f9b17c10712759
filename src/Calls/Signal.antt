-- ===== src/Calls/Signal.antt =====
-- The handler of POST /v1/calls/{call}/signals in modules/calls.go.
use qgramm.Common.{
  ℕ, String, Bool, true, false, not, ◌&&◌, ◌||◌, Option, none, some, List, [], ◌∷◌, ◌++◌, str_eq,
  leb, ◌==◌, update_rows, if◌then◌else◌, Outcome, ok, err, fail, require, row_or, ◌>>=◌, ◌>>◌,
  str_len,
}
use qgramm.Store.{Identity, Db, Engine, Chat, find_chat, member, find_live_seat, append}
use qgramm.Calls.Types.{
  CallState, ringing, active, ended, Kind, accept, reject, hangup, offer, answer, ice, Call,
  CallOperation, World, Payload, SignalInput, Notice, Wire, Reply, is_live_state, is_media, kind_of,
  find_call, find_call_operation,
}
use qgramm.Calls.Media.{media_notice}

-- The switch: the next state of the call, for a kind, the state, and whether the sender is the
-- caller and the callee.
unfoldable pub transition : Kind → CallState → Bool → Bool → Outcome CallState
transition accept ringing caller true = ok active
transition accept s caller callee = fail 409 "invalid call transition"
transition reject ringing caller true = ok ended
transition reject s caller callee = fail 409 "invalid call transition"
transition hangup s caller callee =
    if is_live_state s then ok ended else fail 409 "call already ended"
transition offer s caller callee =
    if caller && is_live_state s then ok s else fail 409 "invalid offer"
transition answer active caller true = ok active
transition answer s caller callee = fail 409 "invalid answer"
transition ice s caller callee = if is_live_state s then ok s else fail 409 "call ended"

-- callPermission, inside the transaction.
unfoldable pub call_permission : Db → Identity → String → Bool
call_permission db id chat = elim (find_live_seat db id chat) [
  | none ↦ false
  | some s ↦ s.member.can_send
]

unfoldable pub peer_of : Identity → Call → String
peer_of id c = if str_eq id.user_id c.callee then c.caller else c.callee

-- The recipient's public key: a live device of the peer, who is a live member of the chat.
unfoldable pub peer_device : Db → String → String → String → Option String
peer_device db device peer chat =
    elim (find_live_seat db (record { user_id = peer; device_id = device }) chat) [
      | none ↦ none
      | some s ↦ some s.device.public_key
    ]

abbrev plain_notice : Identity → Call → SignalInput → Notice
plain_notice id c input = record {
  call = c.id;
  sender = id.user_id;
  device_id = id.device_id;
  operation_id = input.operation;
  kind = input.kind;
  envelope = none;
  to_device = "";
  to_user = "";
  mls = "";
  epoch = 0;
}

-- A payload sealed again, for the peer's device.
unfoldable pub basic_notice : Wire → Db → Identity → Call → SignalInput → Payload → Outcome Notice
basic_notice w db id c input p = do
  public ←
      row_or (peer_device db input.to_device (peer_of id c) c.chat_id) 403
        "recipient device unavailable"
  pk ← row_or (w.decode_base64 public) 500 "recipient key invalid"
  env ←
      row_or
        (w.seal_envelope pk (w.encode_payload p) c.chat_id
          (record { user_id = peer_of id c; device_id = input.to_device }) input.operation)
        500 "signal encryption failed"
  ok (record (plain_notice id c input) {
    envelope = some env;
    to_device = input.to_device;
    to_user = peer_of id c;
  })

-- The event's data by mode; `checked` is what the payload checks let through.
unfoldable pub signal_notice :
    Wire → Db → Identity → Call → Chat → Kind → SignalInput → Option Payload → Outcome Notice
signal_notice w db id c chat k input (some p) =
    if str_eq chat.mode "basic"
    then basic_notice w db id c input p
    else ok (record (plain_notice id c input) { mls = input.mls; epoch = input.epoch })
signal_notice w db id c chat k input none =
    if is_media k
    then ok (record (plain_notice id c input) { mls = input.mls; epoch = input.epoch })
    else ok (plain_notice id c input)

unfoldable pub set_state : String → CallState → ℕ → List Call → List Call
set_state k s now = update_rows (λ c. str_eq c.id k) (λ c. record c { state = s; updated_at = now })

abbrev pub same_state : CallState → CallState → Bool
same_state ringing ringing = true
same_state active active = true
same_state ended ended = true
same_state _ _ = false

-- The writes of the transaction after Append: the call's row if its state moves, and the operation.
unfoldable pub persist_signal :
    World → Identity → Call → SignalInput → String → CallState → ℕ → Db → ℕ → World
unfolding set_state
persist_signal w id c input hash next seq db now = record {
  db = db;
  calls = if same_state next c.state then w.calls else set_state c.id next now w.calls;
  operations =
      w.operations
      ++ record {
        device = id.device_id;
        operation = input.operation;
        call_id = c.id;
        hash = hash;
        seq = seq;
        state = next;
        created_at = now;
      }
        ∷ [];
}

-- The same operation again: its stored answer, or a conflict.
unfoldable pub replayed : World → String → String → CallOperation → Outcome (World × Reply)
replayed w hash call o =
    if str_eq o.hash hash && str_eq o.call_id call
    then ok (w, record { seq = o.seq; state = o.state })
    else fail 409 "operation differs"

abbrev pub epoch_settled : Kind → Chat → SignalInput → Bool
epoch_settled k chat input =
    if is_media k && str_eq chat.mode "e2ee"
    then not chat.pending && (chat.epoch == input.epoch)
    else true

-- "call." followed by the signal's type.
unfoldable pub event_kind : Kind → String
event_kind accept = "call.accept"
event_kind reject = "call.reject"
event_kind hangup = "call.end"
event_kind offer = "call.offer"
event_kind answer = "call.answer"
event_kind ice = "call.ice"

-- Any failure of Append is one answer of the handler.
abbrev pub signal_event : Outcome (ℕ × Db) → Option (ℕ × Db)
signal_event (ok r) = some r
signal_event (err e) = none

-- A signal that is new: the switch, the payload, and the transaction. `io n` says whether its n-th
-- statement gets through.
unfoldable pub fresh_signal :
    Engine
    → Wire
    → (ℕ → Bool)
    → World
    → Identity
    → Call
    → Chat
    → SignalInput
    → ℕ
    → Outcome (World × Reply)
fresh_signal e x io w id c chat input now = do
  k ← row_or (kind_of input.kind) 400 "invalid signal type"
  next ← transition k c.state (str_eq id.user_id c.caller) (str_eq id.user_id c.callee)
  p ← media_notice x id c.chat_id chat.mode k input
  require (io 0) 500 "signal persistence failed"
  require (call_permission w.db id c.chat_id) 403 "call access changed"
  require (epoch_settled k chat input) 409 "MLS epoch changed or rekey pending"
  notice ← signal_notice x w.db id c chat k input p
  r ←
      row_or
        (signal_event (
          append e (io 1) (io 2) w.db c.chat_id (event_kind k) "" (some (x.encode_notice notice))
            now))
        500 "signal persistence failed"
  require (io 3) 500 "call transition failed"
  require (io 4) 500 "operation persistence failed"
  require (io 5) 500 "signal persistence failed"
  ok (
    persist_signal w id c input (x.hash_signal input) next r.0 r.1 now,
    record { seq = r.0; state = next },
  )

unfoldable pub answered :
    Engine
    → Wire
    → (ℕ → Bool)
    → World
    → Identity
    → Call
    → Chat
    → SignalInput
    → ℕ
    → Option CallOperation
    → Outcome (World × Reply)
answered e x io w id c chat input now (some o) = replayed w (x.hash_signal input) c.id o
answered e x io w id c chat input now none = fresh_signal e x io w id c chat input now

-- The handler, from the call's id on.
unfoldable pub signal :
    Engine
    → Wire
    → (ℕ → Bool)
    → World
    → Identity
    → String
    → SignalInput
    → ℕ
    → Outcome (World × Reply)
signal e x io w id call input now = do
  c ← row_or (find_call call w.calls) 404 "call unavailable"
  require (str_eq id.user_id c.caller || str_eq id.user_id c.callee) 403 "call access denied"
  m ← row_or (member w.db id.user_id c.chat_id) 403 "chat access denied"
  require m.can_send 403 "chat access denied"
  chat ← row_or (find_chat c.chat_id w.db.chats) 404 "chat unavailable"
  require (leb 1 (str_len input.operation) && leb (str_len input.operation) 128) 400
      "operation_id required"
  answered e x io w id c chat input now
      (find_call_operation id.device_id input.operation w.operations)
