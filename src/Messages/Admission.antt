-- ===== src/Messages/Admission.antt =====
-- What prepareMessage lets through to the writer.
use qgramm.Common.{
  ℕ, ◌≤◌, ◌≡◌, refl, subst, String, Bool, true, false, not, ◌&&◌, none, some, List, [], arith,
  length, ltb, leb, ok, require, row_or, >>=-eq-ok, require-eq-ok, row_or-eq-ok, ok-injective,
}
use qgramm.Store.{
  Identity, Db, Engine, Chat, Seat, message_aad, find_operation, find_live_seat, find_chat, written,
  storage,
}
use qgramm.Messages.Prepare.{supported}
use qgramm.Messages.{
  MessageInput, Codec, Draft, PrepareHook, Limits, job, open_payload, run_prepare, prepare_fresh,
  answer_prepared, prepare_message,
}
use qgramm.Messages.Opening.{
  IsOpened, IsHooked, IsFeatured, open_payload-IsOpened, run_prepare-IsHooked, supported-IsFeatured,
}

-- A draft is the request's: its sender, chat, message id and operation. It holds the input that the hooks
-- made of the opened one, without plaintext and envelope, and carries the chat's epoch. What is sealed,
-- under the draft's own id, is the payload that the hooks made.
pub record IsPrepared (e : Engine) (k : Codec) (l : Limits) (hooks : List PrepareHook) (db : Db)
    (id : Identity) (chat : String) (input : MessageInput) (message_id : String) (d : Draft)
    : Type 0 where
  pub owned : (d.id ≡ id) × (d.chat ≡ chat) × (d.message_id ≡ message_id)
  pub row : Chat
  pub opened : MessageInput
  pub opens : IsOpened k id chat row.mode row.epoch input opened
  pub ready : MessageInput
  pub hooked : IsHooked id chat hooks opened ready
  pub featured : IsFeatured l input
  pub kept : d.input ≡ record ready { payload = []; envelope = none; mls = "" }
  pub sealed : e.seal ready.payload (message_aad d.message_id) ≡ some d.stored
  pub within : (1 ≤ length ready.payload) × (length ready.payload ≤ l.max_message_bytes)
  pub found : find_chat chat db.chats ≡ some row
  pub settled : (row.pending ≡ false) × (d.epoch ≡ row.epoch) × (d.mode ≡ row.mode)
  pub seat : Seat
  pub seated : find_live_seat db id chat ≡ some seat
  pub may_send : seat.member.can_send ≡ true
  pub described :
      d.metadata
      ≡ k.encode_metadata (record {
        attachments = ready.attachments;
        forward_from = ready.forward_from;
        reply_to = ready.reply_to;
      })
  pub hashed : d.hash ≡ k.hash_input chat input

in_limits : (n limit : ℕ) → ltb 0 n && leb n limit ≡ true → (1 ≤ n) × (n ≤ limit)
in_limits n limit h = ground arith

not-true : (b : Bool) → not b ≡ true → b ≡ false
not-true true h = cc
not-true false h = refl

job-injective : (d d' : Draft) → job d ≡ job d' → d ≡ d'
job-injective d d' h = cc

module _ (e : Engine) (k : Codec) (l : Limits) (hooks : List PrepareHook) (db : Db) (id : Identity)
    (chat : String) (input : MessageInput) (message_id : String) where
  prepare_fresh-IsPrepared :
      (reads : Bool) {d : Draft}
      → prepare_fresh e k l hooks reads db id chat input (k.hash_input chat input) message_id
        ≡ ok (job d)
      → IsPrepared e k l hooks db id chat input message_id d
  unfolding prepare_fresh
  prepare_fresh-IsPrepared reads {d} h =
      let (_, _, h1) = >>=-eq-ok (require reads 403 "send permission denied") _ h in
      let (c, found, h2) =
        >>=-eq-ok (row_or (find_chat chat db.chats) 403 "send permission denied") _ h1 in
      let (s, seated, h3) =
        >>=-eq-ok (row_or (find_live_seat db id chat) 403 "send permission denied") _ h2 in
      let (_, may, h4) = >>=-eq-ok (require s.member.can_send 403 "send permission denied") _ h3 in
      let (_, calm, h5) =
        >>=-eq-ok (require (not c.pending) 409 "MLS epoch transition pending") _ h4 in
      let (_, features, h6) =
        >>=-eq-ok (require (supported l input) 400 "feature absent from build") _ h5 in
      let (opened, plain, h7) = >>=-eq-ok (open_payload k id chat c.mode c.epoch input) _ h6 in
      let (ready, hooked, h8) = >>=-eq-ok (run_prepare hooks id chat opened) _ h7 in
      let (_, size, h9) =
        >>=-eq-ok
          (require (ltb 0 (length ready.payload) && leb (length ready.payload) l.max_message_bytes)
            400 "invalid message payload size")
          _ h8 in
      let (stored, sealed, h10) =
        >>=-eq-ok (storage (e.seal ready.payload (message_aad message_id))) _ h9 in
      subst (IsPrepared e k l hooks db id chat input message_id)
        (job-injective _ d (ok-injective _ _ h10))
        (record {
          owned = (refl, refl, refl);
          row = c;
          opened = opened;
          opens = open_payload-IsOpened k id chat c.mode c.epoch input plain;
          ready = ready;
          hooked = run_prepare-IsHooked id chat hooks opened hooked;
          featured = supported-IsFeatured l input (require-eq-ok _ _ _ features);
          kept = refl;
          sealed = row_or-eq-ok _ _ _ sealed;
          within = in_limits (length ready.payload) l.max_message_bytes (require-eq-ok _ _ _ size);
          found = row_or-eq-ok _ _ _ found;
          settled = (not-true c.pending (require-eq-ok _ _ _ calm), refl, refl);
          seat = s;
          seated = row_or-eq-ok _ _ _ seated;
          may_send = require-eq-ok _ _ _ may;
          described = refl;
          hashed = refl;
        })

  -- What is handed to the writer is of an operation not known before, from a sender with a live seat
  -- who may send, in a chat that waits for no keys, with no feature that the build leaves out. The
  -- draft is for that sender, chat and message id, with the chat's epoch and mode and the hash of the
  -- input. The prepare hooks accept the opened input, and what they make of it is the draft's input
  -- without plaintext and envelope and the draft's metadata, and its payload, not empty and within
  -- the limit, is what the draft holds sealed under its message id.
  pub prepare_message-IsPrepared :
      (valid : String → Bool) (io : ℕ → Bool) {d : Draft}
      → find_operation id.device_id input.operation_id db.operations ≡ none
      → prepare_message e k l hooks valid io db id chat input message_id ≡ ok (job d)
      → IsPrepared e k l hooks db id chat input message_id d
  unfolding prepare_message answer_prepared
  prepare_message-IsPrepared valid io {d} new h =
      let (_, _, h1) =
        >>=-eq-ok
          (require (valid input.operation_id) 400 "operation_id required (1..128 safe characters)")
          _ h in
      let (_, _, h2) = >>=-eq-ok (written (io 0)) _ h1 in
      prepare_fresh-IsPrepared (io 1) (
        subst
          (λ o.
            answer_prepared e k l hooks (io 1) db id chat input (k.hash_input chat input) message_id
              o
            ≡ ok (job d))
          new h2)
