-- ===== src/Store/Append.antt =====
-- Core.Append of internal/core/store.go: the next sequence number of a chat, and one event under it.
use qgramm.Common.{
  ℕ, ◌+◌, String, Bool, not, ◌&&◌, List, [], ◌∷◌, ◌++◌, Option, none, some, any_row, update_rows,
  str_eq, ◌==◌, Outcome, ok, fail, require, row_or, ◌>>=◌, ◌>>◌,
}
use qgramm.Store.Schema.{Bytes, Chat, EventRow, Db}
use qgramm.Store.Sealing.{event_aad, Engine}
use qgramm.Store.Queries.{find_chat}

-- An error that is no APIError, as statusError reports it.
abbrev pub storage_error {ℓ} : {A : Type ℓ} → Outcome A
storage_error = fail 503 "storage unavailable"

abbrev pub storage {ℓ} : {A : Type ℓ} → Option A → Outcome A
storage r = row_or r 503 "storage unavailable"

abbrev pub written : Bool → Outcome (Unit {0})
written b = require b 503 "storage unavailable"

-- UPDATE chats SET seq=seq+1 WHERE id=?
unfoldable pub bump_seq : String → List Chat → List Chat
bump_seq k = update_rows (λ c. str_eq c.id k) (λ c. record c { seq = c.seq + 1 })

-- The primary key (chat_id,seq) of events is taken.
unfoldable pub has_event : String → ℕ → List EventRow → Bool
has_event k n = any_row (λ e. str_eq e.chat_id k && (e.seq == n))

abbrev pub sealed_body : Engine → String → ℕ → Option Bytes → Outcome (Option Bytes)
sealed_body e chat seq none = ok none
sealed_body e chat seq (some raw) = storage (e.seal raw (event_aad chat seq)) >>= λ b. ok (some b)

-- The two writes of Append: the chat's new number, and the event under it.
unfoldable pub push_event : Db → String → ℕ → String → String → Option Bytes → ℕ → Db
push_event db chat seq kind message body now = record db {
  chats = bump_seq chat db.chats;
  events =
      db.events
      ++ record {
        chat_id = chat;
        seq = seq;
        kind = kind;
        message_id = message;
        body = body;
        created_at = now;
      }
        ∷ [];
}

-- `updates` and `inserts` say whether the two statements get through to the file.
unfoldable pub append :
    Engine → Bool → Bool → Db → String → String → String → Option Bytes → ℕ → Outcome (ℕ × Db)
append e updates inserts db chat kind message body now = do
  written updates
  c ← storage (find_chat chat db.chats)
  stored ← sealed_body e chat (c.seq + 1) body
  written (inserts && not (has_event chat (c.seq + 1) db.events))
  ok (c.seq + 1, push_event db chat (c.seq + 1) kind message stored now)
