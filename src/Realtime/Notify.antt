-- ===== src/Realtime/Notify.antt =====
-- A connection's pending chats and its wake channel, of capacity one: notify and takePending.
use qgramm.Common.{
  ℕ, String, Bool, true, List, [], ◌∷◌, any_row, delete_rows, str_eq, if◌then◌else◌,
}
use qgramm.Store.{Identity}

-- `key` is the pointer; the wake channel is full or empty.
pub record Connection : Type 0 where
  pub key : ℕ
  pub id : Identity
  pub wake : Bool
  pub pending : List String
  pub is_done : Bool

-- The set of pending chats.
unfoldable pub insert_text : String → List String → List String
insert_text x xs = if any_row (str_eq x) xs then xs else x ∷ xs

unfoldable pub delete_text : String → List String → List String
delete_text x = delete_rows (str_eq x)

-- notify, under pendingMu
unfoldable pub mark : String → Connection → Connection
unfolding insert_text
mark chat c = record c { pending = insert_text chat c.pending }

-- notify, the send that does not block
unfoldable pub signal : Connection → Connection
signal c = record c { wake = true }

unfoldable pub notify : String → Connection → Connection
unfolding mark signal
notify chat c = signal (mark chat c)

unfoldable pub take_pending : Connection → List String × Connection
take_pending c = (c.pending, record c { pending = [] })

-- subscribe(conn, chat, false), its deletion under pendingMu
unfoldable pub forget : String → Connection → Connection
unfolding delete_text
forget chat c = record c { pending = delete_text chat c.pending }
