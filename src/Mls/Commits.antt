-- ===== src/Mls/Commits.antt =====
-- submitMLSCommit with StoreMLSWelcomeTx: a pending transition, and the welcomes for new devices.
use qgramm.Common.{
  ℕ, ◌+◌, String, Bool, true, false, not, ◌&&◌, List, [], ◌∷◌, ◌++◌, Option, none, some, any_row,
  find, update_rows, length, str_eq, leb, ◌==◌, if◌then◌else◌, Outcome, ok, require, row_or, ◌>>=◌,
  ◌>>◌,
}
use qgramm.Store.{
  Bytes, Identity, Engine, mls_package_aad, mls_transition_aad, mls_control_aad, Chat, Seat,
  find_chat, find_live_seat, member, append,
}
use qgramm.Mls.Types.{
  event_of, Relay, Group, RosterRow, KeyPackage, Transition, CommitMessage, Suite, Hooks,
  find_group, find_roster,
}
use qgramm.Mls.Roster.{live_device, same_bytes}

pub record WelcomeInput : Type 0 where
  pub device_id : String
  pub key_package_id : String
  pub welcome : String

pub record CommitInput : Type 0 where
  pub commit : String
  pub welcomes : List WelcomeInput

-- The unique index mls_one_transition: a transition of the chat that is not confirmed.
abbrev pub is_open : String → Transition → Bool
is_open chat t = str_eq t.chat_id chat && not t.confirmed

-- UPDATE mls_keypackages SET used=1 WHERE id=? AND used=0
unfoldable pub use_package : String → List KeyPackage → List KeyPackage
use_package k = update_rows (λ p. str_eq p.id k && not p.used) (λ p. record p { used = true })

abbrev claimed_for : String → KeyPackage → Bool
claimed_for chat p = elim p.claimed_chat [ none ↦ false | some c ↦ str_eq c chat ]

-- StoreMLSWelcomeTx; `control` is the new uuid.
unfoldable pub store_welcome :
    Engine → Suite → Bool → Relay → String → String → ℕ → String → Bytes → ℕ → Option Relay
store_welcome e s writes r chat target epoch control wire now = elim (s.parse_welcome wire) [
  | none ↦ none
  | some (refs, suite1) ↦ elim (e.seal wire (mls_control_aad control target)) [
    | none ↦ none
    | some stored ↦
        if suite1 && writes
        then some (record r {
          controls =
              r.controls
              ++ record {
                id = control;
                chat_id = chat;
                target_device = target;
                epoch = epoch;
                kind = "welcome";
                payload = stored;
                created_at = now;
              }
                ∷ [];
        })
        else none
  ]
]

module _ (e : Engine) (s : Suite) (io : ℕ → Bool) (fresh : String → String) (chat : String)
    (now : ℕ) where
  -- The welcome is for the key package that was claimed: one of its secrets names it.
  abbrev check_welcome : KeyPackage → Bytes → Outcome (Unit {0})
  check_welcome p welcome = do
    bundle ←
        row_or (e.open_sealed p.payload (mls_package_aad p.id p.device_id)) 500
          "stored KeyPackage authentication failed"
    w ← row_or (s.parse_welcome welcome) 400 "invalid Welcome wire"
    require (any_row (λ r. same_bytes r (s.package_ref bundle)) w.0) 400
        "Welcome does not target claimed KeyPackage reference"

  -- One recipient: a package that is claimed for this chat and used only now, and a live device.
  unfoldable pub welcome_one : Relay → ℕ → List String → WelcomeInput → Outcome Relay
  unfolding use_package live_device store_welcome same_bytes
  welcome_one r epoch targets item = do
    require (not (any_row (str_eq item.device_id) targets)) 400 "duplicate Welcome recipient"
    p ←
        row_or (find (λ p. str_eq p.id item.key_package_id && not p.used) r.packages) 403
          "Welcome needs a consumed device KeyPackage for this chat"
    require (io 3 && claimed_for chat p && str_eq p.device_id item.device_id) 403
        "Welcome needs a consumed device KeyPackage for this chat"
    seat ← row_or (live_device r.db p.device_id chat) 403 "Welcome recipient unauthorized"
    welcome ← row_or (s.decode_base64 item.welcome) 400 "invalid Welcome"
    check_welcome p welcome
    row_or
        (store_welcome e s (io 4)
          (record r { packages = use_package item.key_package_id r.packages }) chat p.device_id
          (epoch + 1) (fresh p.device_id) welcome now)
        400 "invalid Welcome"

  unfoldable pub welcome_all : Relay → ℕ → List String → List WelcomeInput → Outcome Relay
  unfolding welcome_one
  welcome_all r epoch targets [] = ok r
  welcome_all r epoch targets (item ∷ items) = do
    r' ← welcome_one r epoch targets item
    welcome_all r' epoch (item.device_id ∷ targets) items

-- UPDATE chats SET pending=1 WHERE id=?
unfoldable pub set_barrier : String → List Chat → List Chat
set_barrier chat = update_rows (λ c. str_eq c.id chat) (λ c. record c { pending = true })

-- The row of the query: the group, the chat, the sender's leaf and its device.
pub record Sender : Type 0 where
  pub group : Group
  pub chat : Chat
  pub leaf : RosterRow
  pub seat : Seat

unfoldable pub find_sender : Relay → Identity → String → Option Sender
find_sender r id chat = elim (find_group chat r.groups) [
  | none ↦ none
  | some g ↦ elim (find_chat chat r.db.chats) [
    | none ↦ none
    | some c ↦ elim (find_roster chat id.device_id r.roster) [
      | none ↦ none
      | some leaf ↦ elim (find_live_seat r.db id chat) [
        | none ↦ none
        | some seat ↦
            if seat.member.can_send
            then some (record { group = g; chat = c; leaf = leaf; seat = seat })
            else none
      ]
    ]
  ]
]

abbrev fits_sender : CommitMessage → Sender → Bool
fits_sender m x =
    (m.epoch == x.chat.epoch)
    && same_bytes m.group_id x.group.group_id
    && (m.leaf_index == x.leaf.leaf_index)

abbrev pub pending_row : Identity → String → String → ℕ → String → Bytes → ℕ → Transition
pending_row id chat transition epoch hash stored now = record {
  id = transition;
  chat_id = chat;
  sender_device = id.device_id;
  epoch = epoch;
  hash = hash;
  payload = stored;
  confirmed = false;
  created_at = now;
}

-- The INSERT of the transition, under its unique index.
unfoldable pub insert_transition : Bool → Transition → Relay → Option Relay
insert_transition writes t r =
    if writes && not (any_row (is_open t.chat_id) r.transitions)
    then some (record r { transitions = r.transitions ++ t ∷ [] })
    else none

-- The checks of a commit, up to its sealed copy: the sender, the wire, and the copy.
unfoldable pub check_commit :
    Engine
    → Suite
    → Hooks
    → (ℕ → Bool)
    → Relay
    → Identity
    → String
    → String
    → String
    → Outcome (Sender × Bytes × Bytes)
unfolding find_sender same_bytes
check_commit e s hooks io r id chat encoded transition = do
  m ← row_or (member r.db id.user_id chat) 403 "chat access denied"
  require (m.can_send && io 0) 403 "chat access denied"
  wire ← row_or (s.decode_base64 encoded) 400 "invalid commit encoding"
  parsed ← row_or (s.parse_commit wire) 400 "invalid MLS commit"
  commit ← row_or parsed 400 "public member commit required"
  require commit.is_member_commit 400 "public member commit required"
  require (io 1) 500 "transaction unavailable"
  x ← row_or (find_sender r id chat) 409 "commit group, sender or epoch mismatch"
  require (fits_sender commit x) 409 "commit group, sender or epoch mismatch"
  key ← row_or (s.decode_base64 x.seat.device.signing_key) 403 "registered signing key required"
  require (length key == 32) 403 "registered signing key required"
  require (commit.verify key x.group.context) 403 "invalid MLS commit signature"
  require (hooks.begins r.db chat) 409 "MLS transition conflicts with admitted AI work"
  stored ← row_or (e.seal wire (mls_transition_aad transition)) 500 "commit encryption failed"
  ok (x, wire, stored)

-- `transition` and `fresh` are the new uuids.
unfoldable pub submit_commit :
    Engine
    → Suite
    → Hooks
    → (ℕ → Bool)
    → (String → String)
    → Relay
    → Identity
    → String
    → CommitInput
    → String
    → ℕ
    → Outcome Relay
unfolding check_commit insert_transition welcome_all set_barrier
submit_commit e s hooks io fresh r id chat input transition now = do
  (x, wire, stored) ← check_commit e s hooks io r id chat input.commit transition
  r1 ←
      row_or
        (insert_transition (io 2)
          (pending_row id chat transition x.chat.epoch (s.digest wire) stored now) r)
        409 "epoch transition already pending"
  require (leb (length input.welcomes) 1024) 400 "too many Welcome recipients"
  r2 ← welcome_all e s io fresh chat now r1 x.chat.epoch [] input.welcomes
  require (io 5) 500 "barrier persistence failed"
  r3 ←
      row_or
        (event_of (
          append e (io 6) (io 7) (record (r2.db) { chats = set_barrier chat r2.db.chats }) chat
            "mls.commit.pending" ""
            (some (s.encode_pending transition x.chat.epoch (s.digest wire))) now))
        500 "event persistence failed"
  require (io 8) 409 "concurrent MLS transition"
  ok (record r2 { db = r3.1 })
