-- ===== src/Calls/Types.antt =====
-- The rows, inputs and outputs of modules/calls.go, and what it takes from other packages.
use qgramm.Common.{
  ℕ, String, Bool, true, false, ◌&&◌, Option, none, some, List, find, str_eq, if◌then◌else◌,
}
use qgramm.Store.{Bytes, Identity, Db}

-- The values of calls.state that the code writes.
pub data CallState : Type 0 where
  ringing active ended : CallState

pub data Kind : Type 0 where
  accept reject hangup offer answer ice : Kind

-- The cases of `switch in.Type`; none is its default.
unfoldable pub kind_of : String → Option Kind
kind_of s =
    if str_eq s "accept"
    then some accept
    else if str_eq s "reject"
    then some reject
    else if str_eq s "end"
    then some hangup
    else if str_eq s "offer"
    then some offer
    else if str_eq s "answer"
    then some answer
    else if str_eq s "ice"
    then some ice
    else none

unfoldable pub is_media : Kind → Bool
is_media offer = true
is_media answer = true
is_media ice = true
is_media _ = false

-- state IN ('ringing','active')
unfoldable pub is_live_state : CallState → Bool
is_live_state ringing = true
is_live_state active = true
is_live_state ended = false

pub record Call : Type 0 where
  pub id : String
  pub chat_id : String
  pub caller : String
  pub callee : String
  pub state : CallState
  pub mode : String
  pub created_at : ℕ
  pub updated_at : ℕ

pub record CallOperation : Type 0 where
  pub device : String
  pub operation : String
  pub call_id : String
  pub hash : String
  pub seq : ℕ
  pub state : CallState
  pub created_at : ℕ

pub record World : Type 0 where
  pub db : Db
  pub calls : List Call
  pub operations : List CallOperation

-- `negsuc n` is -(n + 1): the JSON number of a media line.
pub data ℤ : Type 0 where
  pos : ℕ → ℤ
  negsuc : ℕ → ℤ

pub record Payload : Type 0 where
  pub sdp : String
  pub candidate : String
  pub sdp_mid : String
  pub sdp_line : Option ℤ

pub record SignalInput : Type 0 where
  pub kind : String
  pub operation : String
  pub to_device : String
  pub envelope : Option Bytes
  pub mls : String
  pub epoch : ℕ

-- The map that becomes the event's data.
pub record Notice : Type 0 where
  pub call : String
  pub sender : String
  pub device_id : String
  pub operation_id : String
  pub kind : String
  pub envelope : Option Bytes
  pub to_device : String
  pub to_user : String
  pub mls : String
  pub epoch : ℕ

-- encoding/base64, encoding/json, crypto/sha256 and the envelope cipher.
pub record Wire : Type 0 where
  pub decode_base64 : String → Option Bytes
  pub hash_signal : SignalInput → String
  pub open_envelope : Bytes → String → Identity → String → Option Bytes
  pub decode_payload : Bytes → Option Payload
  pub encode_payload : Payload → Bytes
  pub seal_envelope : Bytes → Bytes → String → Identity → String → Option Bytes
  pub encode_notice : Notice → Bytes

pub record Reply : Type 0 where
  pub seq : ℕ
  pub state : CallState

unfoldable pub find_call : String → List Call → Option Call
find_call k = find (λ c. str_eq c.id k)

unfoldable pub find_call_operation : String → String → List CallOperation → Option CallOperation
find_call_operation device op = find (λ o. str_eq o.device device && str_eq o.operation op)
