-- ===== src/Mls/Sending.antt =====
-- The hooks of installE2EE in the sending of a message.
use qgramm.Common.{
  ℕ, String, Bool, not, ◌&&◌, List, Option, none, some, str_eq, leb, ◌==◌, if◌then◌else◌, Outcome,
  ok, require, row_or, ◌>>=◌, ◌>>◌,
}
use qgramm.Store.{Identity, Chat, find_chat, storage, written}
use qgramm.Messages.{Message, MessageInput}
use qgramm.Mls.Types.{Relay, Group, RosterRow, PrivateMessage, Suite, find_group, find_roster}
use qgramm.Mls.Roster.{same_bytes}

-- The row of the query: the group and the chat of a device in the roster.
unfoldable pub group_of : Relay → String → String → Option (Group × Chat)
group_of r chat device = elim (find_group chat r.groups) [
  | none ↦ none
  | some g ↦ elim (find_chat chat r.db.chats) [
    | none ↦ none
    | some c ↦ elim (find_roster chat device r.roster) [ none ↦ none | some q ↦ some (g, c) ]
  ]
]

abbrev is_encrypted : PrivateMessage → Bool
is_encrypted m =
    m.is_application && leb 16 m.sender_data_size && leb 16 m.ciphertext_size && m.canonical

-- The Prepare hook in an e2ee chat: an encrypted application message of the chat's current epoch.
unfoldable pub prepare_private :
    Suite → Bool → Relay → Identity → String → MessageInput → Outcome MessageInput
unfolding group_of same_bytes
prepare_private s reads r id chat input = do
  wire ← row_or (s.decode_base64 input.mls) 400 "invalid MLS encoding"
  parsed ← row_or (s.parse_private wire) 400 "invalid MLS wire"
  m ← row_or parsed 400 "MLS encrypted application message required"
  require (is_encrypted m) 400 "MLS encrypted application message required"
  g ← row_or (group_of r chat id.device_id) 409 "MLS group, device, epoch or transition mismatch"
  require
      (reads
        && not g.1.pending
        && (m.epoch == g.1.epoch)
        && (input.epoch == g.1.epoch)
        && same_bytes m.group_id g.0.group_id)
      409 "MLS group, device, epoch or transition mismatch"
  require (same_bytes m.authenticated_data (s.binding chat id input.operation_id)) 400
      "MLS authenticated binding mismatch"
  ok (record input { payload = wire })

-- The Prepare hook; other chats pass it as they are.
unfoldable pub e2ee_prepare :
    Suite → (ℕ → Bool) → Relay → Identity → String → MessageInput → Outcome MessageInput
unfolding prepare_private
e2ee_prepare s io r id chat input = do
  written (io 0)
  c ← storage (find_chat chat r.db.chats)
  if str_eq c.mode "e2ee" then prepare_private s (io 1) r id chat input else ok input

-- The InTransaction hook: the device is still in the roster.
unfoldable pub e2ee_hook : Bool → List RosterRow → Identity → String → Message → Outcome (Unit {0})
e2ee_hook reads roster id chat m =
    if str_eq m.mode "e2ee"
    then (written reads
        >> row_or (find_roster chat id.device_id roster) 409 "device not in current MLS roster"
        >>= λ q. ok tt)
    else ok tt
