-- ===== src/Mls/Packages.antt =====
-- uploadMLSKeyPackage and claimMLSKeyPackage.
use qgramm.Common.{
  ℕ, String, Bool, true, false, not, ◌&&◌, ◌||◌, List, [], ◌∷◌, ◌++◌, Option, none, some, any_row,
  select, update_rows, length, str_eq, ltb, ◌==◌, if◌then◌else◌, Outcome, ok, require, row_or,
  ◌>>=◌, ◌>>◌,
}
use Prim.Native.String
use Prim.Native.Nat.{Ordering}
use qgramm.Store.{
  Bytes, Identity, Db, Engine, mls_package_aad, Device, find_device, find_chat, member,
}
use qgramm.Mls.Types.{Relay, KeyPackage, Suite}
use qgramm.Mls.Roster.{live_device, same_bytes}

abbrev pub is_unclaimed : KeyPackage → Bool
is_unclaimed p = elim p.claimed_chat [ none ↦ true | some c ↦ false ]

abbrev pub registered : Db → Identity → Option Device
registered db id = elim (find_device id.device_id db.devices) [
  | none ↦ none
  | some d ↦ if str_eq d.user_id id.user_id && not d.revoked then some d else none
]

abbrev open_packages : String → List KeyPackage → ℕ
open_packages device ps = length (select (λ p. str_eq p.device_id device && is_unclaimed p) ps)

-- The INSERT ... SELECT ... WHERE count < 100 ON CONFLICT DO NOTHING answers 409 when it inserts nothing.
unfoldable pub upload_package :
    Engine → Suite → (ℕ → Bool) → Relay → Identity → String → ℕ → Outcome (Relay × String)
unfolding same_bytes
upload_package e s io r id encoded now = do
  wire ← row_or (s.decode_base64 encoded) 400 "invalid KeyPackage encoding"
  who ← row_or (s.package_identity wire) 400 "invalid device KeyPackage"
  require (str_eq who.0 id.device_id && io 0) 400 "invalid device KeyPackage"
  d ← row_or (registered r.db id) 400 "invalid device KeyPackage"
  key ←
      row_or (s.decode_base64 d.signing_key) 403
        "KeyPackage signing key differs from registered device"
  require (same_bytes who.1 key) 403 "KeyPackage signing key differs from registered device"
  stored ←
      row_or (e.seal wire (mls_package_aad (s.digest wire) id.device_id)) 500
        "KeyPackage encryption failed"
  require (io 1) 500 "KeyPackage persistence failed"
  require
      (ltb (open_packages id.device_id r.packages) 100
        && not (any_row (λ p. str_eq p.id (s.digest wire)) r.packages))
      409 "duplicate KeyPackage or device quota reached"
  ok (
    record r {
      packages =
          r.packages
          ++ record {
            id = s.digest wire;
            device_id = id.device_id;
            payload = stored;
            claimed_chat = none;
            used = false;
            created_at = now;
          }
            ∷ [];
    },
    s.digest wire,
  )

abbrev text_before : String → String → Bool
text_before a b = elim (String.compare a b) [ Ordering.lt ↦ true | _ ↦ false ]

-- ORDER BY created_at,id
abbrev earlier : KeyPackage → KeyPackage → Bool
earlier p q =
    ltb p.created_at q.created_at || ((p.created_at == q.created_at) && text_before p.id q.id)

abbrev pub first_of : KeyPackage → Option KeyPackage → KeyPackage
first_of p none = p
first_of p (some q) = if earlier q p then q else p

-- The oldest package of a device that nobody claimed.
unfoldable pub oldest_unclaimed : String → List KeyPackage → Option KeyPackage
oldest_unclaimed device [] = none
oldest_unclaimed device (p ∷ ps) =
    let rest = oldest_unclaimed device ps in
    if str_eq p.device_id device && is_unclaimed p then some (first_of p rest) else rest

-- UPDATE mls_keypackages SET claimed_chat=? WHERE id=? AND claimed_chat IS NULL
unfoldable pub claim_row : String → String → List KeyPackage → List KeyPackage
claim_row k chat =
    update_rows (λ p. str_eq p.id k && is_unclaimed p) (λ p. record p { claimed_chat = some chat })

-- What a claim answers: the package, or that it was retired as expired or invalid.
pub data Claimed : Type 0 where
  handed_out : String → Bytes → Claimed
  retired : String → Claimed

abbrev identified : Suite → String → Bytes → Claimed
identified s ref wire = elim (s.package_identity wire) [
  | none ↦ retired ref
  | some who ↦ handed_out ref wire
]

-- The claim is committed also where the package turns out to be invalid, so that it is never chosen again.
unfoldable pub claim_package :
    Engine → Suite → (ℕ → Bool) → Relay → Identity → String → String → Outcome (Relay × Claimed)
unfolding live_device oldest_unclaimed claim_row
claim_package e s io r id chat target = do
  m ← row_or (member r.db id.user_id chat) 403 "chat access denied"
  require (m.can_send && io 0) 403 "chat access denied"
  require (io 1) 500 "transaction unavailable"
  seat ← row_or (live_device r.db target chat) 403 "target device not authorized for E2EE chat"
  c ← row_or (find_chat chat r.db.chats) 403 "target device not authorized for E2EE chat"
  require (io 2 && str_eq c.mode "e2ee") 403 "target device not authorized for E2EE chat"
  p ← row_or (oldest_unclaimed target r.packages) 409 "no unclaimed KeyPackage"
  require (io 3) 409 "no unclaimed KeyPackage"
  wire ←
      row_or (e.open_sealed p.payload (mls_package_aad p.id target)) 500 "stored KeyPackage invalid"
  require (io 4) 409 "concurrent claim"
  ok (record r { packages = claim_row p.id chat r.packages }, identified s p.id wire)
