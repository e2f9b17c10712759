-- ===== src/Mls/Confirm.antt =====
-- confirmMLSEpoch: the authority's signed roster initialises a group, or confirms its pending commit.
use qgramm.Common.{
  ℕ, ◌≡◌, ◌+◌, String, Bool, true, false, not, ◌&&◌, List, [], Option, none, some, any_row, find,
  update_rows, length, str_eq, leb, ltb, ◌==◌, Outcome, ok, err, fail, require, row_or, ◌>>=◌, ◌>>◌,
}
use qgramm.Store.{Bytes, Engine, mls_transition_aad, Chat, find_chat, find_device, append}
use qgramm.Mls.Types.{
  event_of, Relay, Group, RelayMember, Transition, Suite, Hooks, find_group, find_roster,
}
use qgramm.Mls.Roster.{same_bytes, valid_context, validate_roster, save_roster, init_relay}

-- previous_epoch: -1 for an initialisation, a number, or below -1.
pub data Previous : Type 0 where
  initial below : Previous
  at_epoch : ℕ → Previous

pub record ConfirmInput : Type 0 where
  pub transition_id : String
  pub group_id : String
  pub group_context : String
  pub previous_epoch : Previous
  pub epoch : ℕ
  pub signer_device : String
  pub signature : String
  pub roster : List RelayMember

abbrev pub max_epoch : ℕ
max_epoch = 9223372036854775807

abbrev pub is_pending : String → ℕ → String → String → Transition → Bool
is_pending transition epoch chat signer t =
    str_eq t.id transition
    && str_eq t.chat_id chat
    && (t.epoch == epoch)
    && str_eq t.sender_device signer
    && not t.confirmed

-- The open transition that a confirmation is of: the group is at the previous epoch and waits, and the
-- signer is in its roster and sent the commit.
unfoldable pub open_transition :
    Engine → Relay → String → Bytes → ConfirmInput → ℕ → Outcome (String × Bytes)
unfolding same_bytes
open_transition e r chat group_id input previous = do
  require (ltb previous max_epoch && (input.epoch == previous + 1)) 409 "epoch must advance by one"
  g ← row_or (find_group chat r.groups) 409 "stale MLS confirmation"
  c ← row_or (find_chat chat r.db.chats) 409 "stale MLS confirmation"
  require (c.pending && (c.epoch == previous) && same_bytes g.group_id group_id) 409
      "stale MLS confirmation"
  leaf ←
      row_or (find_roster chat input.signer_device r.roster) 403
        "existing MLS participant signer required"
  t ←
      row_or (find (is_pending input.transition_id previous chat input.signer_device) r.transitions)
        409 "pending signed transition required"
  wire ←
      row_or (e.open_sealed t.payload (mls_transition_aad input.transition_id)) 500
        "commit authentication failed"
  ok (t.hash, wire)

-- The commit's hash and wire; neither for an initialisation.
abbrev pub referenced :
    Engine → Relay → String → Bytes → ConfirmInput → Previous → Outcome (String × Bytes)
referenced e r chat group_id input initial =
    require (str_eq input.transition_id "") 400 "initialization cannot reference transition"
    >> ok ("", [])
referenced e r chat group_id input below = fail 409 "epoch must advance by one"
referenced e r chat group_id input (at_epoch n) = open_transition e r chat group_id input n

-- UPDATE mls_groups SET context=? WHERE chat_id=?
unfoldable pub set_context : String → Bytes → List Group → List Group
set_context chat context =
    update_rows (λ g. str_eq g.chat_id chat) (λ g. record g { context = context })

-- UPDATE mls_transitions SET confirmed=1 WHERE id=? AND confirmed=0
unfoldable pub confirm_row : String → List Transition → List Transition
confirm_row k =
    update_rows (λ t. str_eq t.id k && not t.confirmed) (λ t. record t { confirmed = true })

-- UPDATE chats SET epoch=?,pending=0 WHERE id=? AND epoch=? AND pending=1
unfoldable pub advance_epoch : String → ℕ → ℕ → List Chat → List Chat
advance_epoch chat previous epoch =
    update_rows (λ c. str_eq c.id chat && (c.epoch == previous) && c.pending)
      (λ c. record c { epoch = epoch; pending = false })

-- The writes of a confirmation, once the hooks agree.
unfoldable pub confirm_transition :
    Suite → Hooks → (ℕ → Bool) → Relay → String → Bytes → ConfirmInput → ℕ → Bytes → Outcome Relay
unfolding set_context confirm_row advance_epoch
confirm_transition s hooks io r chat context input previous wire = do
  require (hooks.commits r.db chat wire) 409 "admitted AI participant cannot apply commit"
  rows ←
      row_or (save_roster (io 3) chat input.roster r.roster) 409
        "MLS initialization or confirmation conflict"
  require (io 4 && io 5 && io 6) 409 "MLS initialization or confirmation conflict"
  ok (record r {
    roster = rows;
    groups = set_context chat context r.groups;
    transitions = confirm_row input.transition_id r.transitions;
    db = record (r.db) { chats = advance_epoch chat previous input.epoch r.db.chats };
  })

abbrev pub conflict : Outcome Relay → Outcome Relay
conflict (ok r) = ok r
conflict (err x) = fail 409 "MLS initialization or confirmation conflict"

pub conflict-eq-ok : (o : Outcome Relay) {r : Relay} → conflict o ≡ ok r → o ≡ ok r
conflict-eq-ok (ok r) h = h
conflict-eq-ok (err x) h = cc

abbrev pub applied :
    Suite
    → Hooks
    → (ℕ → Bool)
    → (ℕ → Bool)
    → Relay
    → String
    → Bytes
    → Bytes
    → ConfirmInput
    → Bytes
    → Previous
    → Outcome Relay
applied s hooks io init_io r chat group_id context input wire initial =
    conflict (init_relay s init_io r chat group_id context input.epoch input.roster)
applied s hooks io init_io r chat group_id context input wire (at_epoch n) =
    confirm_transition s hooks io r chat context input n wire
applied s hooks io init_io r chat group_id context input wire below =
    fail 409 "epoch must advance by one"

abbrev previous_number : Previous → Option ℕ
previous_number (at_epoch n) = some n
previous_number _ = none

abbrev answered : Outcome (Unit {0}) → Outcome (Unit {0})
answered (ok u) = ok u
answered (err x) = fail 409 "new roster differs from active account/device ACL"

-- The checks of a confirmation: the group's identifier, its context, and the commit that it is of.
unfoldable pub check_confirm :
    Engine → Suite → (ℕ → Bool) → Relay → String → ConfirmInput → Outcome (Bytes × Bytes × Bytes)
unfolding valid_context validate_roster open_transition
check_confirm e s io r chat input = do
  group_id ← row_or (s.decode_base64 input.group_id) 400 "invalid group encoding"
  context ← row_or (s.decode_base64 input.group_context) 400 "invalid suite1 context"
  require (valid_context s context group_id input.epoch && leb input.epoch max_epoch) 400
      "invalid suite1 context"
  signature ← row_or (s.decode_base64 input.signature) 400 "invalid authority signature encoding"
  require (length signature == 64) 400 "invalid authority signature encoding"
  require (io 0) 500 "transaction unavailable"
  answered (validate_roster s (io 1) r.db chat input.roster)
  signer ←
      row_or (find_device input.signer_device r.db.devices) 403
        "registered authority signer required"
  require (io 2 && not signer.revoked) 403 "registered authority signer required"
  key ← row_or (s.decode_base64 signer.signing_key) 403 "authority signing key unavailable"
  require (length key == 32) 403 "authority signing key unavailable"
  require (any_row (λ m. str_eq m.device_id input.signer_device) input.roster) 403
      "signer must remain in approved roster"
  commit ← referenced e r chat group_id input input.previous_epoch
  require
      (s.verify_proof key
        (s.encode_proof chat group_id (previous_number input.previous_epoch) input.epoch commit.0
          context input.roster)
        signature)
      403 "invalid roster authority proof"
  ok (group_id, context, commit.1)

unfoldable pub confirm_epoch :
    Engine
    → Suite
    → Hooks
    → (ℕ → Bool)
    → (ℕ → Bool)
    → Relay
    → String
    → ConfirmInput
    → ℕ
    → Outcome Relay
unfolding check_confirm confirm_transition init_relay
confirm_epoch e s hooks io init_io r chat input now = do
  (group_id, context, wire) ← check_confirm e s io r chat input
  r1 ← applied s hooks io init_io r chat group_id context input wire input.previous_epoch
  r2 ←
      row_or
        (event_of (
          append e (io 7) (io 8) r1.db chat "mls.epoch.confirmed" ""
            (some (s.encode_confirmed input.epoch input.transition_id input.roster)) now))
        500 "MLS event persistence failed"
  require (io 9) 409 "concurrent MLS confirmation"
  ok (record r1 { db = r2.1 })
