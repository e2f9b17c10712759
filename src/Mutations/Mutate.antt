-- ===== src/Mutations/Mutate.antt =====
-- mutate of internal/modules/mutations.go: the checks and the idempotency that all three actions share.
use qgramm.Common.{
  ℕ, String, Bool, true, not, ◌&&◌, ◌||◌, Option, none, some, [], ◌∷◌, ◌++◌, str_eq, str_len, leb,
  ◌==◌, if◌then◌else◌, Outcome, ok, require, row_or, ◌>>=◌, ◌>>◌,
}
use qgramm.Store.{
  Bytes, Identity, Db, StoredMessage, Operation, Seat, find_message, find_live_seat, find_operation,
  written,
}

pub data Action : Type 0 where
  edit deletion reaction : Action

-- What the SELECT over the message and the member returns.
pub record Target : Type 0 where
  pub message : StoredMessage
  pub role : String

abbrev visible : String → StoredMessage → Seat → Option Target
visible chat m s =
    if str_eq m.chat_id chat && leb s.member.joined_seq m.seq
    then some (record { message = m; role = s.member.role })
    else none

-- The message in its chat, for a live device of an active member who joined before it.
unfoldable pub find_target : Db → Identity → String → String → Option Target
find_target db id chat message = elim (find_message message db.messages) [
  | none ↦ none
  | some m ↦ elim (find_live_seat db id chat) [ none ↦ none | some s ↦ visible chat m s ]
]

-- The author, and for a deletion with Policy.DeleteMode "global" the owner and the admins.
abbrev pub may_delete : String → String → Bool
may_delete mode role = (str_eq role "owner" || str_eq role "admin") && str_eq mode "global"

unfoldable pub allowed : Action → String → Identity → Target → Bool
allowed reaction mode id t = true
allowed edit mode id t = str_eq t.message.sender id.user_id
allowed deletion mode id t = str_eq t.message.sender id.user_id || may_delete mode t.role

-- An edit names the revision that it replaces.
abbrev pub current : Action → ℕ → Target → Bool
current edit expected t = not t.message.deleted && (t.message.revision == expected)
current _ expected t = true

-- What the action does in the transaction; any failure is one answer.
abbrev pub Writes : Type 0
Writes = Db → Target → Option Db

unfoldable pub mutation_row : Identity → String → String → Bytes → ℕ → Operation
mutation_row id operation hash result now = record {
  device_id = id.device_id;
  operation_id = operation;
  hash = hash;
  result = result;
  created_at = now;
}

module _ (action : Action) (delete_mode : String) (io : ℕ → Bool) (fn : Writes) where
  unfoldable pub fresh_mutation :
      Db → Identity → String → String → String → String → ℕ → Bytes → ℕ → Outcome Db
  unfolding mutation_row
  fresh_mutation db id chat message operation hash expected result now = do
    require (io 2) 404 "message inaccessible"
    t ← row_or (find_target db id chat message) 404 "message inaccessible"
    require (allowed action delete_mode id t) 403 "operation denied"
    require (current action expected t) 409 "message deleted or revision conflict"
    db' ← row_or (fn db t) 409 "mutation rejected"
    written (io 3 && io 4)
    ok (record db' {
      operations = db'.operations ++ mutation_row id operation hash result now ∷ [];
    })

  -- The stored operation answers again, or conflicts.
  abbrev pub settled :
      Db
      → Identity
      → String
      → String
      → String
      → String
      → ℕ
      → Bytes
      → ℕ
      → Option Operation
      → Outcome Db
  settled db id chat message operation hash expected result now (some o) =
      require (str_eq o.hash hash) 409 "operation conflict" >> ok db
  settled db id chat message operation hash expected result now none =
      fresh_mutation db id chat message operation hash expected result now

  -- `hash` is over the action, the chat, the message and the input; `result` the encoded answer.
  unfoldable pub mutate :
      Db → Identity → String → String → String → String → ℕ → Bytes → ℕ → Outcome Db
  mutate db id chat message operation hash expected result now = do
    require (not (str_eq operation "") && leb (str_len operation) 128) 400 "operation_id required"
    written (io 0 && io 1)
    settled db id chat message operation hash expected result now
        (find_operation id.device_id operation db.operations)
