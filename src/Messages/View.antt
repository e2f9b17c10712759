-- ===== src/Messages/View.antt =====
-- Reading messages back: projectMessages, projectStoredMessages, history and the projection hooks of
-- modules/delete.go and modules/reactions.go.
use qgramm.Common.{
  ℕ, String, Bool, true, ◌&&◌, List, [], ◌∷◌, ◌++◌, Option, none, some, any_row, find, select,
  length, str_eq, ltb, leb, ◌==◌, if◌then◌else◌, Outcome, ok, require, row_or, ◌>>=◌, ◌>>◌,
  traverse,
}
use qgramm.Store.{
  Bytes, Identity, Db, Engine, message_aad, Chat, Seat, StoredMessage, ReactionRow, find_chat,
  find_live_seat, storage, written, page,
}
use qgramm.Messages.Types.{Message, MessageMetadata, Reaction}

-- encoding/json, encoding/base64 and the envelopes of internal/cryptoenc: a recipient is parsed from
-- the device's public key, and seals under the binding of chat, user, device and message.
pub record Reader : Type 0 where
  pub decode_metadata : Bytes → Option MessageMetadata
  pub parse_recipient : String → Option Bytes
  pub seal_for : Bytes → Bytes → String → Identity → String → Option Bytes
  pub encode_base64 : Bytes → String

-- Core.Project: hooks that may change what a reader sees of a message.
abbrev pub ProjectHook : Type 0
ProjectHook = Identity → Message → Outcome Message

-- storedMessage: the columns of one row, with the mode of its chat.
pub record Item : Type 0 where
  pub message : Message
  pub payload : Bytes
  pub metadata : Bytes

unfoldable pub item_of : StoredMessage → Chat → Item
item_of row c = record {
  message = record {
    reactions = [];
    id = row.id;
    chat_id = row.chat_id;
    sender = row.sender;
    device_id = row.device_id;
    operation_id = row.operation_id;
    seq = row.seq;
    revision = row.revision;
    deleted = row.deleted;
    mode = c.mode;
    epoch = row.epoch;
    created_at = row.created_at;
    envelope = none;
    mls = "";
    attachments = [];
    reply_to = "";
    forward_from = "";
  };
  payload = row.payload;
  metadata = row.metadata;
}

unfoldable pub run_project : List ProjectHook → Identity → Message → Outcome Message
run_project [] id m = ok m
run_project (h ∷ hs) id m = h id m >>= λ m'. run_project hs id m'

module _ (e : Engine) (x : Reader) (hooks : List ProjectHook) (id : Identity) where
  -- The plaintext for a reader: sealed for the device in a basic chat, and the stored wire otherwise.
  unfoldable pub deliver : String → Message → Bytes → Outcome Message
  deliver key m plain =
      if str_eq m.mode "basic"
      then (do
        recipient ← storage (x.parse_recipient key)
        env ← storage (x.seal_for recipient plain m.chat_id id m.id)
        ok (record m { envelope = some env }))
      else ok (record m { mls = x.encode_base64 plain })

  unfoldable pub reveal : String → Item → Message → Outcome Message
  unfolding deliver
  reveal key item m =
      if m.deleted
      then ok (record m { attachments = []; reply_to = ""; forward_from = "" })
      else (do plain ← storage (e.open_sealed item.payload (message_aad m.id)); deliver key m plain)

  unfoldable pub project_one : String → Item → Outcome Message
  unfolding run_project reveal
  project_one key item = do
    meta ← storage (x.decode_metadata item.metadata)
    m ← run_project hooks id (record (item.message) {
      attachments = meta.attachments;
      reply_to = meta.reply_to;
      forward_from = meta.forward_from;
    })
    reveal key item m

  unfoldable pub project_stored : String → List Item → Outcome (List Message)
  project_stored key items = traverse (project_one key) items

  abbrev pub visible_to : StoredMessage → Chat → Seat → Option (Item × String)
  visible_to row c s =
      if leb s.member.joined_seq row.seq then some (item_of row c, s.device.public_key) else none

  -- A row through the joins and the conditions of messageProjectionAccess, with the device's key.
  unfoldable pub readable : Db → StoredMessage → Option (Item × String)
  unfolding item_of
  readable db row = elim (find_chat row.chat_id db.chats) [
    | none ↦ none
    | some c ↦ elim (find_live_seat db id row.chat_id) [ none ↦ none | some s ↦ visible_to row c s ]
  ]

  abbrev pub with_item : Option (Item × String) → List (Item × String) → List (Item × String)
  with_item none rest = rest
  with_item (some i) rest = i ∷ rest

  unfoldable pub readable_rows : Db → List StoredMessage → List (Item × String)
  unfolding readable
  readable_rows db [] = []
  readable_rows db (row ∷ rows) = with_item (readable db row) (readable_rows db rows)

  -- The ids without repetitions.
  unfoldable pub unique : List String → List String → List String
  unique seen [] = []
  unique seen (k ∷ ks) =
      let rest = unique seen ks in
      let more = unique (k ∷ seen) ks in if any_row (str_eq k) seen then rest else k ∷ more

  -- The key that the loop over the rows scanned last; the rows are of one device.
  abbrev pub last_key : List (Item × String) → String
  last_key [] = ""
  last_key (i ∷ is) = elim is [ [] ↦ i.1 | _ ∷ _ ↦ last_key is ]

  abbrev pub items_of : List (Item × String) → List Item
  items_of [] = []
  items_of (i ∷ is) = i.0 ∷ items_of is

  abbrev in_ids : List String → StoredMessage → Bool
  in_ids ids row = any_row (str_eq row.id) ids

  unfoldable pub project_messages : Bool → Db → List String → Outcome (List Message)
  unfolding readable_rows unique
  project_messages reads db [] = ok []
  project_messages reads db (k ∷ ks) =
      let rows = readable_rows db (select (in_ids (k ∷ ks)) db.messages) in
      do
        written reads
        require (length rows == length (unique [] (k ∷ ks))) 404 "message not accessible"
        project_stored (last_key rows) (items_of rows)

  -- messages[0], of the one message that was asked for.
  unfoldable pub view_message : Bool → Db → String → Outcome Message
  view_message reads db k = do
    ms ← project_messages reads db (k ∷ [])
    storage (find (λ m. true) ms)

  abbrev in_history : String → ℕ → StoredMessage → Bool
  in_history chat joined row = str_eq row.chat_id chat && leb joined row.seq

  -- history, for the query's parsed cursor and limit; sequence numbers of one chat's messages differ.
  unfoldable pub history : Bool → Db → String → ℕ → ℕ → Outcome (List Message)
  history reads db chat after limit = do
    written reads
    c ← row_or (find_chat chat db.chats) 403 "membership required"
    s ← row_or (find_live_seat db id chat) 403 "membership required"
    project_stored s.device.public_key (
        items_of (
          readable_rows db
            (page (λ row. row.seq) (in_history chat s.member.joined_seq) limit after db.messages)))

-- The limit of the query: a number from 1 to 200, and else 100.
abbrev pub history_limit : Option ℕ → ℕ
history_limit none = 100
history_limit (some n) = if ltb 0 n && leb n 200 then n else 100

-- modules/delete.go: who hid a message sees it as deleted.
unfoldable pub hidden_hook : Bool → Db → ProjectHook
hidden_hook reads db id m = do
  written reads
  ok (
      if any_row (λ h. str_eq h.message_id m.id && str_eq h.user_id id.user_id) db.hidden
      then record m { deleted = true }
      else m)

abbrev reactions_of : String → List ReactionRow → List Reaction
reactions_of message [] = []
reactions_of message (r ∷ rs) =
    let rest = reactions_of message rs in
    if str_eq r.message_id message
    then record { kind = r.kind; user_id = r.user_id } ∷ rest
    else rest

-- modules/reactions.go; `order` is ORDER BY type,user_id.
unfoldable pub reactions_hook : (List Reaction → List Reaction) → Bool → Db → ProjectHook
reactions_hook order reads db id m = if m.deleted then ok m else (do
  written reads
  ok (record m { reactions = m.reactions ++ order (reactions_of m.id db.reactions) }))
