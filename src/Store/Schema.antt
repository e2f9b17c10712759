-- ===== src/Store/Schema.antt =====
-- The tables of internal/core/store.go and of the modules, a list of rows each. Blobs are lists
-- of bytes, and INTEGER columns that hold a flag are Booleans.
use qgramm.Common.{ℕ, String, Bool, List, Option}

abbrev pub Bytes : Type 0
Bytes = List ℕ

pub record User : Type 0 where
  pub id : String
  pub disabled : Bool

pub record Device : Type 0 where
  pub id : String
  pub user_id : String
  pub public_key : String
  pub signing_key : String
  pub revoked : Bool

pub record Chat : Type 0 where
  pub id : String
  pub kind : String
  pub mode : String
  pub seq : ℕ
  pub epoch : ℕ
  pub pending : Bool
  pub created_at : ℕ

pub record Member : Type 0 where
  pub chat_id : String
  pub user_id : String
  pub role : String
  pub can_send : Bool
  pub joined_seq : ℕ
  pub active : Bool

pub record StoredMessage : Type 0 where
  pub id : String
  pub chat_id : String
  pub sender : String
  pub device_id : String
  pub operation_id : String
  pub seq : ℕ
  pub revision : ℕ
  pub deleted : Bool
  pub payload : Bytes
  pub metadata : Bytes
  pub epoch : ℕ
  pub created_at : ℕ

pub record EventRow : Type 0 where
  pub chat_id : String
  pub seq : ℕ
  pub kind : String
  pub message_id : String
  pub body : Option Bytes
  pub created_at : ℕ

pub record Operation : Type 0 where
  pub device_id : String
  pub operation_id : String
  pub hash : String
  pub result : Bytes
  pub created_at : ℕ

pub record Cursor : Type 0 where
  pub device_id : String
  pub chat_id : String
  pub delivered : ℕ
  pub read : ℕ

pub record ReactionRow : Type 0 where
  pub message_id : String
  pub user_id : String
  pub kind : ℕ

pub record HiddenRow : Type 0 where
  pub message_id : String
  pub user_id : String

pub record Db : Type 0 where
  pub users : List User
  pub devices : List Device
  pub chats : List Chat
  pub members : List Member
  pub messages : List StoredMessage
  pub events : List EventRow
  pub operations : List Operation
  pub cursors : List Cursor
  pub reactions : List ReactionRow
  pub hidden : List HiddenRow

-- core/types.go: the authenticated device that a request comes from.
pub record Identity : Type 0 where
  pub user_id : String
  pub device_id : String
