-- ===== src/Receipts/Monotone.antt =====
-- A device's cursor only moves forward, and never past the head of the chat.
use qgramm.Common.{ℕ, ◌≡◌, String, Bool, Option}
use qgramm.Store.{Bytes, Identity, Db, Engine, Cursor, find_cursor}
use qgramm.Receipts.{max_of, delivered_of, read_of, Receipt}

-- A cursor is the larger of where it was and what a receipt says.
abbrev pub IsPlace : Option Cursor → ℕ × ℕ → ℕ → ℕ → Type 0
IsPlace new (was_delivered, was_read) delivered read =
    (delivered_of new ≡ max_of was_delivered delivered) × (read_of new ≡ max_of was_read read)

module _ (e : Engine) (encode : Receipt → Bytes) (io : ℕ → Bool) (db : Db) (id : Identity)
    (chat : String) where
  -- What the cursor of this device in this chat is in a state.
  abbrev pub place : Db → ℕ × ℕ
  place s = let c = find_cursor id.device_id chat s.cursors in (delivered_of c, read_of c)
