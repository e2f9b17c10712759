-- ===== src/Receipts.antt =====
-- The handler of receipts in internal/core/messages.go: how far a device has got in a chat.
use qgramm.Common.{
  ℕ, ◌+◌, ◌≤◌, ◌<◌, String, Bool, true, false, ◌&&◌, Option, none, some, List, [], ◌∷◌, ltb, leb,
  find, str_eq, if◌then◌else◌, Outcome, ok, err, fail, require, row_or, ◌>>=◌, ◌>>◌,
}
use qgramm.Store.{
  Bytes, Identity, Db, Engine, Cursor, member, head_seq, find_cursor, append, written,
}
pub mod Monotone

abbrev pub max_of : ℕ → ℕ → ℕ
max_of a b = if ltb a b then b else a

-- The stored cursor, 0 and 0 where there is none.
abbrev pub delivered_of : Option Cursor → ℕ
delivered_of none = 0
delivered_of (some c) = c.delivered

abbrev pub read_of : Option Cursor → ℕ
read_of none = 0
read_of (some c) = c.read

-- INSERT ... ON CONFLICT(device_id,chat_id) DO UPDATE SET delivered=MAX(...),read=MAX(...)
unfoldable pub put_cursor : String → String → ℕ → ℕ → List Cursor → List Cursor
put_cursor device chat delivered read [] =
    record { device_id = device; chat_id = chat; delivered = delivered; read = read } ∷ []
put_cursor device chat delivered read (c ∷ cs) =
    let rest = put_cursor device chat delivered read cs in
    if str_eq c.device_id device && str_eq c.chat_id chat
    then record c { delivered = max_of c.delivered delivered; read = max_of c.read read } ∷ cs
    else c ∷ rest

-- The event's data: the cursor as it is after the call.
pub record Receipt : Type 0 where
  pub user_id : String
  pub device_id : String
  pub delivered : ℕ
  pub read : ℕ

module _ (e : Engine) (encode : Receipt → Bytes) (io : ℕ → Bool) (db : Db) (id : Identity)
    (chat : String) where
  -- A cursor that moves: the row and an event, in one transaction.
  unfoldable pub advance : ℕ → ℕ → ℕ → Option Cursor → Outcome Db
  unfolding put_cursor
  advance delivered read now old = do
    written (io 2)
    r ←
        append e (io 3) (io 4)
          (record db { cursors = put_cursor id.device_id chat delivered read db.cursors }) chat
          "receipt.updated" ""
          (some (
            encode (record {
              user_id = id.user_id;
              device_id = id.device_id;
              delivered = max_of (delivered_of old) delivered;
              read = max_of (read_of old) read;
            })))
          now
    written (io 5)
    ok r.1

  -- The handler, on counters that are not negative. A failure of the SELECT of the head reads as 0 (io 0).
  unfoldable pub receipt : ℕ → ℕ → ℕ → Outcome Db
  unfolding advance
  receipt delivered read now =
      let old = if io 6 then find_cursor id.device_id chat db.cursors else none in
      let moved = advance delivered read now old in
      do
        _ ← row_or (member db id.user_id chat) 403 "membership required"
        require (leb read delivered && leb delivered (if io 0 then head_seq chat db.chats else 0))
            400 "invalid receipt range"
        written (io 1)
        if leb delivered (delivered_of old) && leb read (read_of old) then ok db else moved
