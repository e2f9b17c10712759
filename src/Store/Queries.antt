-- ===== src/Store/Queries.antt =====
-- The SELECTs by primary key, and the join by which a request's device is checked.
use qgramm.Common.{
  ℕ, String, Bool, not, ◌&&◌, List, Option, none, some, find, str_eq, if◌then◌else◌,
}
use qgramm.Store.Schema.{User, Device, Chat, Member, StoredMessage, Operation, Cursor, Identity, Db}

unfoldable pub find_user : String → List User → Option User
find_user k = find (λ u. str_eq u.id k)

unfoldable pub find_device : String → List Device → Option Device
find_device k = find (λ d. str_eq d.id k)

unfoldable pub find_chat : String → List Chat → Option Chat
find_chat k = find (λ c. str_eq c.id k)

unfoldable pub find_member : String → String → List Member → Option Member
find_member chat user = find (λ m. str_eq m.chat_id chat && str_eq m.user_id user)

unfoldable pub find_message : String → List StoredMessage → Option StoredMessage
find_message k = find (λ m. str_eq m.id k)

unfoldable pub find_operation : String → String → List Operation → Option Operation
find_operation device op = find (λ o. str_eq o.device_id device && str_eq o.operation_id op)

unfoldable pub find_cursor : String → String → List Cursor → Option Cursor
find_cursor device chat = find (λ c. str_eq c.device_id device && str_eq c.chat_id chat)

infixl 5 ◌>>=◌
abbrev ◌>>=◌ {ℓ κ} : {A : Type ℓ} {B : Type κ} → Option A → (A → Option B) → Option B
some a >>= f = f a
none >>= f = none

-- One row of members JOIN devices ON d.user_id=m.user_id JOIN users ON u.id=m.user_id for a chat,
-- a user and a device.
pub record Seat : Type 0 where
  pub member : Member
  pub device : Device
  pub user : User

abbrev owned_by : String → Device → Option Device
owned_by user d = if str_eq d.user_id user then some d else none

unfoldable pub find_seat : Db → Identity → String → Option Seat
find_seat db id chat = do
  m ← find_member chat id.user_id db.members
  d ← find_device id.device_id db.devices
  d' ← owned_by id.user_id d
  u ← find_user id.user_id db.users
  some (record { member = m; device = d'; user = u })

-- m.active=1 AND d.revoked=0 AND u.disabled=0
abbrev pub is_live : Seat → Bool
is_live s = s.member.active && not s.device.revoked && not s.user.disabled

-- The same join with those conditions in its WHERE clause.
unfoldable pub find_live_seat : Db → Identity → String → Option Seat
unfolding find_seat
find_live_seat db id chat = do s ← find_seat db id chat; if is_live s then some s else none

-- Core.Member: the active membership of a user.
unfoldable pub member : Db → String → String → Option Member
member db user chat =
    find (λ m. str_eq m.chat_id chat && str_eq m.user_id user && m.active) db.members

-- The head of a chat's journal, 0 for an unknown chat.
abbrev seq_or_zero : Option Chat → ℕ
seq_or_zero none = 0
seq_or_zero (some c) = c.seq

unfoldable pub head_seq : String → List Chat → ℕ
unfolding find_chat
head_seq k cs = seq_or_zero (find_chat k cs)
