-- ===== src/Mls/Types.antt =====
-- The tables of modules/e2ee.go, its inputs, and what it takes from the MLS packages.
use qgramm.Common.{
  ℕ, String, Bool, ◌&&◌, List, Option, none, some, find, str_eq, ◌≡◌, Outcome, ok, err,
}
use qgramm.Store.{Bytes, Identity, Db}

-- mls_groups and mls_roster
pub record Group : Type 0 where
  pub chat_id : String
  pub group_id : Bytes
  pub context : Bytes

pub record RosterRow : Type 0 where
  pub chat_id : String
  pub device_id : String
  pub leaf_index : ℕ

-- mls_keypackages, mls_controls and mls_transitions
pub record KeyPackage : Type 0 where
  pub id : String
  pub device_id : String
  pub payload : Bytes
  pub claimed_chat : Option String
  pub used : Bool
  pub created_at : ℕ

pub record Control : Type 0 where
  pub id : String
  pub chat_id : String
  pub target_device : String
  pub epoch : ℕ
  pub kind : String
  pub payload : Bytes
  pub created_at : ℕ

pub record Transition : Type 0 where
  pub id : String
  pub chat_id : String
  pub sender_device : String
  pub epoch : ℕ
  pub hash : String
  pub payload : Bytes
  pub confirmed : Bool
  pub created_at : ℕ

pub record Relay : Type 0 where
  pub db : Db
  pub groups : List Group
  pub roster : List RosterRow
  pub packages : List KeyPackage
  pub controls : List Control
  pub transitions : List Transition

-- MLSRelayMember
pub record RelayMember : Type 0 where
  pub device_id : String
  pub leaf_index : ℕ

-- A decoded MLS message: a private one, a public commit, or a welcome.
pub record PrivateMessage : Type 0 where
  pub is_application : Bool
  pub sender_data_size : ℕ
  pub ciphertext_size : ℕ
  pub epoch : ℕ
  pub group_id : Bytes
  pub authenticated_data : Bytes
  pub canonical : Bool

pub record CommitMessage : Type 0 where
  pub is_member_commit : Bool
  pub epoch : ℕ
  pub group_id : Bytes
  pub leaf_index : ℕ
  pub verify : Bytes → Bytes → Bool

-- GroupContext, as far as parseMLSContext looks at it.
pub record Context : Type 0 where
  pub is_suite1 : Bool
  pub group_id : Bytes
  pub epoch : ℕ
  pub tree_hash_size : ℕ
  pub transcript_hash_size : ℕ
  pub canonical : Bool

-- The MLS framing, ciphersuite and group packages, crypto/ed25519, base64 and SHA-256.
pub record Suite : Type 0 where
  pub decode_base64 : String → Option Bytes
  pub digest : Bytes → String
  pub parse_private : Bytes → Option (Option PrivateMessage)
  pub parse_commit : Bytes → Option (Option CommitMessage)
  pub parse_context : Bytes → Option Context
  -- The references that a Welcome's secrets target, and whether it is of suite 1.
  pub parse_welcome : Bytes → Option (List Bytes × Bool)
  pub package_ref : Bytes → Bytes
  -- KeyPackageIdentity: the device's identity and the public signing key.
  pub package_identity : Bytes → Option (String × Bytes)
  pub binding : String → Identity → String → Bytes
  pub verify_proof : Bytes → Bytes → Bytes → Bool
  pub encode_proof : String → Bytes → Option ℕ → ℕ → String → Bytes → List RelayMember → Bytes
  pub encode_pending : String → ℕ → String → Bytes
  pub encode_confirmed : ℕ → String → List RelayMember → Bytes

-- Hooks of admitted AI participants, which may refuse, and change their own tables alone.
pub record Hooks : Type 0 where
  pub begins : Db → String → Bool
  pub commits : Db → String → Bytes → Bool

unfoldable pub find_group : String → List Group → Option Group
find_group chat = find (λ g. str_eq g.chat_id chat)

unfoldable pub find_roster : String → String → List RosterRow → Option RosterRow
find_roster chat device = find (λ r. str_eq r.chat_id chat && str_eq r.device_id device)

-- What the caller of Append looks at.
abbrev pub event_of : Outcome (ℕ × Db) → Option (ℕ × Db)
event_of (ok r) = some r
event_of (err x) = none

pub event_of-eq-some : (o : Outcome (ℕ × Db)) {r : ℕ × Db} → event_of o ≡ some r → o ≡ ok r
event_of-eq-some (ok r) h = cc
event_of-eq-some (err x) h = cc
