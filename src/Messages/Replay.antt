-- ===== src/Messages/Replay.antt =====
-- Core.Events of core/messages.go: a page of the journal after a cursor, with the messages that its
-- events name as they are now.
use qgramm.Common.{
  ℕ, ◌+◌, ◌-◌, String, Bool, false, not, ◌&&◌, ◌||◌, List, [], ◌∷◌, Option, none, some, str_eq, ltb,
  leb, ◌==◌, if◌then◌else◌, Outcome, ok, fail, require, row_or, ◌>>=◌, ◌>>◌, traverse,
}
use qgramm.Store.{
  Bytes, Identity, Db, Engine, event_aad, Chat, Seat, StoredMessage, EventRow, find_chat,
  find_live_seat, find_message, storage, written, page,
}
use qgramm.Messages.Types.{Message}
use qgramm.Messages.View.{Reader, ProjectHook, Item, item_of, project_one}

-- Event.Data: a message, what json.Unmarshal makes of the opened bytes, or nothing.
pub data EventData : Type 0 where
  of_message : Message → EventData
  of_bytes : Bytes → EventData
  no_content : EventData

pub record Event : Type 0 where
  pub seq : ℕ
  pub chat_id : String
  pub kind : String
  pub message_id : String
  pub content : EventData

abbrev pub in_chat_event : String → EventRow → Bool
in_chat_event chat r = str_eq r.chat_id chat

-- SELECT MIN(seq) FROM events WHERE chat_id=?
unfoldable pub min_event : String → List EventRow → Option ℕ
min_event chat [] = none
min_event chat (r ∷ rs) =
    let rest = min_event chat rs in
    if str_eq r.chat_id chat
    then elim rest [ none ↦ some r.seq | some n ↦ some (if ltb r.seq n then r.seq else n) ]
    else rest

-- The cursor is raised to the member's first event, and then has to lie within the journal: none is
-- an empty page, and some the cursor to read from.
abbrev pub covers : Option ℕ → ℕ → Bool
covers none after = false
covers (some n) after = leb n (after + 1)

abbrev pub raised : ℕ → ℕ → ℕ
raised after joined = if ltb after (joined - 1) then joined - 1 else after

unfoldable pub check_cursor : ℕ → Option ℕ → ℕ → Outcome (Option ℕ)
check_cursor current minimum after = do
  require (not (ltb after current && not (covers minimum after))) 410
      "cursor expired; sync history and current state"
  require (leb after current) 400 "cursor ahead of chat"
  ok (if after == current then none else some after)

-- A row of the page with the message that it names, read in the same snapshot.
pub record PageItem : Type 0 where
  pub row : EventRow
  pub message : Option Item

module _ (e : Engine) (x : Reader) (decode : Bytes → Option Bytes) (hooks : List ProjectHook)
    (id : Identity) (chat : String) where
  abbrev pub message_item : Chat → Seat → Option StoredMessage → Outcome Item
  message_item c s none = fail 404 "message not accessible"
  message_item c s (some m) =
      if str_eq m.chat_id chat && leb s.member.joined_seq m.seq
      then ok (item_of m c)
      else fail 404 "message not accessible"

  abbrev pub page_item : Db → Chat → Option Seat → EventRow → Outcome PageItem
  page_item db c none r = fail 403 "membership required"
  page_item db c (some s) r =
      if str_eq r.message_id "" then ok (record { row = r; message = none }) else (do
        i ← message_item c s (find_message r.message_id db.messages)
        ok (record { row = r; message = some i }))

  -- The loop over the rows of the query.
  unfoldable pub page_items : Db → Chat → Option Seat → List EventRow → Outcome (List PageItem)
  page_items db c s rs = traverse (page_item db c s) rs

  -- projectStoredMessages; an event that names a message again gets the same projection.
  abbrev pub project_item : String → Option Item → Outcome (Option Message)
  project_item key none = ok none
  project_item key (some i) = do m ← project_one e x hooks id key i; ok (some m)

  abbrev pub project_page_item : String → PageItem → Outcome (EventRow × Option Message)
  project_page_item key i = do m ← project_item key i.message; ok (i.row, m)

  unfoldable pub project_items : String → List PageItem → Outcome (List (EventRow × Option Message))
  project_items key is = traverse (project_page_item key) is

  abbrev pub opened : EventRow → Option Bytes → Outcome EventData
  opened r none = ok no_content
  opened r (some []) = ok no_content
  opened r (some (b ∷ bs)) = do
    plain ← storage (e.open_sealed (b ∷ bs) (event_aad chat r.seq))
    content ← storage (decode plain)
    ok (of_bytes content)

  abbrev pub event_data : EventRow → Option Message → Outcome EventData
  event_data r (some m) = ok (of_message m)
  event_data r none = opened r r.body

  abbrev pub output_event : EventRow × Option Message → Outcome Event
  output_event (r, m) = do
    content ← event_data r m
    ok (record {
      seq = r.seq;
      chat_id = chat;
      kind = r.kind;
      message_id = r.message_id;
      content = content;
    })

  unfoldable pub output_events : List (EventRow × Option Message) → Outcome (List Event)
  output_events ms = traverse output_event ms

  -- One event is read by a query of its own, which stays at or below the head that was seen.
  abbrev pub page_rows : Db → ℕ → ℕ → ℕ → List EventRow
  page_rows db current after limit =
      if (current - after == 1) || (limit == 1)
      then page (λ r. r.seq) (λ r. in_chat_event chat r && leb r.seq current) 1 after db.events
      else page (λ r. r.seq) (in_chat_event chat) limit after db.events

  abbrev pub seat_key : Option Seat → String
  seat_key none = ""
  seat_key (some s) = s.device.public_key

  -- The query joins the chat: without it there are no rows.
  unfoldable pub read_page : Db → ℕ → ℕ → ℕ → Option Chat → Outcome (List Event)
  unfolding page_items project_items output_events
  read_page db current after limit none = ok []
  read_page db current after limit (some c) = do
    is ← page_items db c (find_live_seat db id chat) (page_rows db current after limit)
    ms ← project_items (seat_key (find_live_seat db id chat)) is
    output_events ms

  abbrev pub read_after : Bool → Db → ℕ → ℕ → Option ℕ → Outcome (List Event)
  read_after reads db current limit none = ok []
  read_after reads db current limit (some after) = do
    written reads
    read_page db current after limit (find_chat chat db.chats)

  -- `seen` is the snapshot of the first query, `db` that of the second.
  unfoldable pub events : (ℕ → Bool) → Db → Db → ℕ → ℕ → Outcome (List Event)
  unfolding check_cursor min_event read_page
  events io seen db after limit = do
    require (leb 1 limit && leb limit 200) 400 "event limit must be 1..200"
    written (io 0)
    c ← row_or (find_chat chat seen.chats) 403 "membership required"
    s ← row_or (find_live_seat seen id chat) 403 "membership required"
    cursor ← check_cursor c.seq (min_event chat seen.events) (raised after s.member.joined_seq)
    read_after (io 1) db c.seq limit cursor
