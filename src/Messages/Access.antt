-- ===== src/Messages/Access.antt =====
-- Who a message is accepted from: the checks that persistMessageInTx makes in the transaction.
use qgramm.Common.{
  ℕ, ◌≡◌, Bool, true, false, not, ◌&&◌, List, some, arith, ◌==◌, ok, require, row_or, >>=-eq-ok,
  require-eq-ok, row_or-eq-ok,
}
use qgramm.Store.{Db, Engine, Seat, Chat, find_seat, is_live, find_chat, find_operation, written}
use qgramm.Messages.{Message, Codec, Draft, Hook, settle, persist_message}

-- The sender's device is live, may send in the chat, and wrote for the chat's current epoch.
pub record IsAccepted (db : Db) (d : Draft) : Type 0 where
  pub seat : Seat
  pub seated : find_seat db d.id d.chat ≡ some seat
  pub chat : Chat
  pub found : find_chat d.chat db.chats ≡ some chat
  pub live : is_live seat ≡ true
  pub may_send : seat.member.can_send ≡ true
  pub settled : chat.pending ≡ false
  pub current : d.epoch ≡ chat.epoch

module _ (e : Engine) (k : Codec) (hooks : List Hook) (io : ℕ → Bool) (db : Db) (d : Draft)
    (now : ℕ) where
  pub persist-IsAccepted :
      {r : Db × Message × Bool}
      → persist_message e k hooks io db d now ≡ ok r
      → IsAccepted db d
        × (settle e k hooks io db d now
              (find_operation d.id.device_id d.input.operation_id db.operations)
            ≡ ok r)
  unfolding persist_message
  persist-IsAccepted {r} h =
      let (_, _, h1) = >>=-eq-ok (require (io 0) 403 "send permission revoked") _ h in
      let (s, hs, h2) =
        >>=-eq-ok (row_or (find_seat db d.id d.chat) 403 "send permission revoked") _ h1 in
      let (c, hc, h3) =
        >>=-eq-ok (row_or (find_chat d.chat db.chats) 403 "send permission revoked") _ h2 in
      let (_, ha, h4) =
        >>=-eq-ok (require (is_live s && s.member.can_send) 403 "send permission revoked") _ h3 in
      let (_, he, h5) =
        >>=-eq-ok (require (not c.pending && (d.epoch == c.epoch)) 409 "epoch changed") _ h4 in
      let (_, _, h6) = >>=-eq-ok (written (io 1)) _ h5 in
      let allowed = require-eq-ok _ _ _ ha in
      let epoch_ok = require-eq-ok _ _ _ he in
      (
        record {
          seat = s;
          seated = row_or-eq-ok _ _ _ hs;
          chat = c;
          found = row_or-eq-ok _ _ _ hc;
          live = ground arith;
          may_send = ground arith;
          settled = ground arith;
          current = ground arith;
        },
        h6,
      )
