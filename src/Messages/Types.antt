-- ===== src/Messages/Types.antt =====
-- core/types.go and core/messages.go: what a client sends, what a message is, and what
-- prepareMessage hands to the writer.
use qgramm.Common.{ℕ, ◌+◌, String, Bool, Option, List, length, Outcome}
use qgramm.Store.{Bytes, Identity, Db}

pub record MessageInput : Type 0 where
  pub operation_id : String
  pub envelope : Option Bytes
  pub mls : String
  pub epoch : ℕ
  pub attachments : List String
  pub reply_to : String
  pub forward_from : String
  pub payload : Bytes

pub record Reaction : Type 0 where
  pub kind : ℕ
  pub user_id : String

pub record Message : Type 0 where
  pub reactions : List Reaction
  pub id : String
  pub chat_id : String
  pub sender : String
  pub device_id : String
  pub operation_id : String
  pub seq : ℕ
  pub revision : ℕ
  pub deleted : Bool
  pub mode : String
  pub epoch : ℕ
  pub created_at : ℕ
  pub envelope : Option Bytes
  pub mls : String
  pub attachments : List String
  pub reply_to : String
  pub forward_from : String

pub record MessageMetadata : Type 0 where
  pub attachments : List String
  pub forward_from : String
  pub reply_to : String

-- The hash, the encodings and the envelope cipher, which other packages provide: SHA-256 over the
-- chat and the JSON of the input, encoding/json, and Engine.OpenEnvelope under a binding.
pub record Codec : Type 0 where
  pub hash_input : String → MessageInput → String
  pub encode_message : Message → Bytes
  pub decode_message : Bytes → Option Message
  pub encode_metadata : MessageMetadata → Bytes
  pub open_envelope : Bytes → String → Identity → String → Option Bytes

-- The arguments that the closure of a prepared job holds.
pub record Draft : Type 0 where
  pub id : Identity
  pub chat : String
  pub input : MessageInput
  pub mode : String
  pub epoch : ℕ
  pub hash : String
  pub message_id : String
  pub stored : Bytes
  pub metadata : Bytes

-- messageWriteJob.bytes
unfoldable pub job_bytes : Draft → ℕ
job_bytes d = length d.stored + length d.metadata

-- InTransaction hooks: they read the transaction's tables and may refuse the message.
abbrev pub Hook : Type 0
Hook = Db → Identity → String → Message → Outcome (Unit {0})

-- Prepare hooks: they may rewrite the input.
abbrev pub PrepareHook : Type 0
PrepareHook = Identity → String → MessageInput → Outcome MessageInput
