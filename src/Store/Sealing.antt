-- ===== src/Store/Sealing.antt =====
-- What the service takes from internal/cryptoenc and encoding/json: sealing at rest under
-- associated data, and the encodings that are stored.
use qgramm.Common.{ℕ, String, Option}
use qgramm.Store.Schema.{Bytes}

-- The associated data: "message/<id>", "event/<chat>/<seq>", and those of MLS wires,
-- "mls/keypackage/<ref>/<device>", "mls/transition/<id>" and "mls/control/<id>/<device>".
pub data Aad : Type 0 where
  message_aad : String → Aad
  event_aad : String → ℕ → Aad
  mls_package_aad : String → String → Aad
  mls_transition_aad : String → Aad
  mls_control_aad : String → String → Aad

pub record Engine : Type 0 where
  pub seal : Bytes → Aad → Option Bytes
  pub open_sealed : Bytes → Aad → Option Bytes
