-- ===== src/Mls/Roster.antt =====
-- validateMLSRoster, saveMLSRoster, parseMLSContext and InitMLSRelayTx.
use qgramm.Common.{
  ℕ, String, Bool, true, false, not, ◌&&◌, ◌||◌, List, [], ◌∷◌, ◌++◌, Option, none, some, any_row,
  delete_rows, update_rows, length, str_eq, leb, ◌==◌, if◌then◌else◌, Outcome, ok, require, row_or,
  ◌>>=◌, ◌>>◌,
}
use qgramm.Store.{
  Bytes, Db, Chat, Seat, Member, find_chat, find_device, find_user, find_live_seat, written,
}
use qgramm.Mls.Types.{Relay, Group, RosterRow, RelayMember, Suite}

-- A device that is not revoked, of an enabled user who is an active member of the chat.
unfoldable pub live_device : Db → String → String → Option Seat
live_device db device chat = elim (find_device device db.devices) [
  | none ↦ none
  | some d ↦ find_live_seat db (record { user_id = d.user_id; device_id = device }) chat
]

-- bytes.Equal
unfoldable pub same_bytes : Bytes → Bytes → Bool
same_bytes [] [] = true
same_bytes [] (b ∷ bs) = false
same_bytes (a ∷ as') [] = false
same_bytes (a ∷ as') (b ∷ bs) = (a == b) && same_bytes as' bs

-- What the loop has seen: devices, leaves and users.
pub record Seen : Type 0 where
  pub devices : List String
  pub leaves : List ℕ
  pub users : List String

abbrev pub is_new : Seen → RelayMember → Bool
is_new seen m =
    not (any_row (str_eq m.device_id) seen.devices)
    && not (any_row (λ l. m.leaf_index == l) seen.leaves)
    && leb m.leaf_index 65535

abbrev has_size : ℕ → Option Bytes → Bool
has_size n none = false
has_size n (some b) = length b == n

-- The loop over the roster.
unfoldable pub check_members : Suite → Db → String → Seen → List RelayMember → Outcome Seen
unfolding live_device
check_members s db chat seen [] = ok seen
check_members s db chat seen (m ∷ ms) = do
  require (is_new seen m) 409 "duplicate or invalid roster entry"
  seat ← row_or (live_device db m.device_id chat) 409 "roster contains unauthorized device"
  require (has_size 32 (s.decode_base64 seat.device.signing_key)) 409
      "roster device has no signing key"
  check_members s db chat
      (record {
        devices = m.device_id ∷ seen.devices;
        leaves = m.leaf_index ∷ seen.leaves;
        users = seat.user.id ∷ seen.users;
      })
      ms

abbrev is_enabled : Db → String → Bool
is_enabled db user = elim (find_user user db.users) [ none ↦ false | some u ↦ not u.disabled ]

-- Every active and enabled account of the chat has a device in the roster.
unfoldable pub all_covered : Db → String → List String → List Member → Bool
all_covered db chat users [] = true
all_covered db chat users (m ∷ ms) =
    not (
      str_eq m.chat_id chat
      && m.active
      && is_enabled db m.user_id
      && not (any_row (str_eq m.user_id) users))
    && all_covered db chat users ms

unfoldable pub validate_roster : Suite → Bool → Db → String → List RelayMember → Outcome (Unit {0})
unfolding check_members all_covered
validate_roster s reads db chat roster = do
  require (leb 1 (length roster) && leb (length roster) 1024) 409 "invalid roster size"
  seen ← check_members s db chat (record { devices = []; leaves = []; users = [] }) roster
  written reads
  require (all_covered db chat seen.users db.members) 409 "roster must cover every active account"

abbrev takes : RosterRow → RosterRow → Bool
takes r q =
    str_eq q.chat_id r.chat_id && (str_eq q.device_id r.device_id || (q.leaf_index == r.leaf_index))

-- The INSERTs, under the keys (chat_id,device_id) and (chat_id,leaf_index).
unfoldable pub insert_roster : String → List RelayMember → List RosterRow → Option (List RosterRow)
insert_roster chat [] rows = some rows
insert_roster chat (m ∷ ms) rows =
    let row : RosterRow = record {
      chat_id = chat;
      device_id = m.device_id;
      leaf_index = m.leaf_index;
    } in
    let rest = insert_roster chat ms (rows ++ row ∷ []) in
    if any_row (takes row) rows then none else rest

unfoldable pub save_roster :
    Bool → String → List RelayMember → List RosterRow → Option (List RosterRow)
unfolding insert_roster
save_roster writes chat roster rows =
    if writes
    then insert_roster chat roster (delete_rows (λ r. str_eq r.chat_id chat) rows)
    else none

-- parseMLSContext
unfoldable pub valid_context : Suite → Bytes → Bytes → ℕ → Bool
unfolding same_bytes
valid_context s context group_id epoch = elim (s.parse_context context) [
  | none ↦ false
  | some c ↦
      c.is_suite1
      && same_bytes c.group_id group_id
      && (c.epoch == epoch)
      && (c.tree_hash_size == 32)
      && ((c.transcript_hash_size == 32) || ((epoch == 0) && (c.transcript_hash_size == 0)))
      && c.canonical
]

abbrev group_taken : String → Bytes → Group → Bool
group_taken chat group_id g = str_eq g.chat_id chat || same_bytes g.group_id group_id

-- UPDATE chats SET epoch=?,pending=0 WHERE id=?
unfoldable pub set_epoch : String → ℕ → List Chat → List Chat
set_epoch chat epoch =
    update_rows (λ c. str_eq c.id chat) (λ c. record c { epoch = epoch; pending = false })

-- InitMLSRelayTx; 9223372036854775807 is math.MaxInt64.
unfoldable pub init_relay :
    Suite → (ℕ → Bool) → Relay → String → Bytes → Bytes → ℕ → List RelayMember → Outcome Relay
unfolding same_bytes valid_context validate_roster save_roster set_epoch
init_relay s io r chat group_id context epoch roster = do
  require (leb epoch 9223372036854775807 && leb 1 (length group_id) && leb (length group_id) 256)
      409 "invalid MLS metadata"
  require (valid_context s context group_id epoch) 409 "invalid suite1 GroupContext"
  validate_roster s (io 0) r.db chat roster
  c ← row_or (find_chat chat r.db.chats) 409 "E2EE chat required"
  require (io 1 && str_eq c.mode "e2ee") 409 "E2EE chat required"
  require (io 2 && not (any_row (group_taken chat group_id) r.groups)) 409 "group exists"
  rows ← row_or (save_roster (io 3) chat roster r.roster) 409 "roster conflict"
  require (io 4) 409 "epoch update failed"
  ok (record r {
    groups = r.groups ++ record { chat_id = chat; group_id = group_id; context = context } ∷ [];
    roster = rows;
    db = record (r.db) { chats = set_epoch chat epoch r.db.chats };
  })
