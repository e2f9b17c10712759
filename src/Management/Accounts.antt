-- ===== src/Management/Accounts.antt =====
-- putUser, putDevice and revokeDevice. What disconnects live sockets is not part of the tables.
use qgramm.Common.{
  ℕ, String, Bool, true, false, not, ◌&&◌, ◌||◌, Option, none, some, List, [], ◌∷◌, ◌++◌, length,
  any_row, update_rows, str_eq, ◌==◌, if◌then◌else◌, Outcome, ok, fail, require, row_or, ◌>>=◌,
  ◌>>◌,
}
use qgramm.Store.{Bytes, User, Device, Chat, Member, Db, find_device, written}
use qgramm.Management.Names.{valid_id}

-- INSERT INTO users ... ON CONFLICT(id) DO UPDATE SET disabled=excluded.disabled
unfoldable pub put_user_row : String → Bool → List User → List User
put_user_row k disabled [] = record { id = k; disabled = disabled } ∷ []
put_user_row k disabled (u ∷ us) =
    let rest = put_user_row k disabled us in
    if str_eq u.id k then record u { disabled = disabled } ∷ us else u ∷ rest

unfoldable pub put_user : (ℕ → Bool) → Db → String → Bool → Outcome Db
unfolding put_user_row
put_user io db user disabled = do
  require (valid_id user) 400 "invalid user id"
  written (io 0)
  ok (record db { users = put_user_row user disabled db.users })

-- encoding/base64 and crypto/ecdh: the bytes of a key, and whether they are an X25519 public key.
pub record Keys : Type 0 where
  pub decode_base64 : String → Option Bytes
  pub is_x25519 : Bytes → Bool

abbrev signing_ok : Keys → String → Bool
signing_ok k key =
    if str_eq key ""
    then true
    else elim (k.decode_base64 key) [ none ↦ false | some b ↦ length b == 32 ]

abbrev same_device : Device → String → String → String → Bool
same_device d user public signing =
    str_eq d.public_key public && str_eq d.user_id user && str_eq d.signing_key signing

-- The INSERT that does nothing on a known device, and the comparison of its keys then.
abbrev insert_device : Db → String → String → String → String → Option Device → Outcome Db
insert_device db user device public signing none = ok (record db {
  devices =
      db.devices
      ++ record {
        id = device;
        user_id = user;
        public_key = public;
        signing_key = signing;
        revoked = false;
      }
        ∷ [];
})
insert_device db user device public signing (some d) =
    if same_device d user public signing
    then ok db
    else fail 409 "device keys immutable; register new device"

-- The foreign key asks for the user of a new row only; `io 1` is the SELECT of the stored keys, whose
-- failure leaves them empty.
unfoldable pub put_device : Keys → (ℕ → Bool) → Db → String → String → String → String → Outcome Db
put_device k io db user device public signing = do
  key ← row_or (k.decode_base64 public) 400 "invalid X25519 public key"
  require (k.is_x25519 key) 400 "invalid X25519 public key"
  require (signing_ok k signing) 400 "invalid signing key"
  require (valid_id user && valid_id device) 400 "invalid identity"
  require (io 0) 409 "unknown user or invalid device"
  require (any_row (λ u. str_eq u.id user) db.users || any_row (λ d. str_eq d.id device) db.devices)
      409 "unknown user or invalid device"
  require (io 1 || not (any_row (λ d. str_eq d.id device) db.devices)) 409
      "device keys immutable; register new device"
  insert_device db user device public signing (find_device device db.devices)

abbrev pub is_device : String → String → Device → Bool
is_device user device d = str_eq d.id device && str_eq d.user_id user

-- UPDATE devices SET revoked=1 WHERE id=? AND user_id=?
unfoldable pub set_revoked : String → String → List Device → List Device
set_revoked user device = update_rows (is_device user device) (λ d. record d { revoked = true })

-- SELECT chat_id FROM members WHERE user_id=? AND active=1
unfoldable pub in_chat : String → List Member → String → Bool
in_chat user members chat =
    any_row (λ m. str_eq m.chat_id chat && str_eq m.user_id user && m.active) members

-- UPDATE chats SET pending=1 WHERE mode='e2ee' AND id IN(...)
unfoldable pub set_pending : String → List Member → List Chat → List Chat
set_pending user members =
    update_rows (λ c. str_eq c.mode "e2ee" && in_chat user members c.id)
      (λ c. record c { pending = true })

unfoldable pub revoke_device : (ℕ → Bool) → Db → String → String → Outcome Db
unfolding set_revoked set_pending
revoke_device io db user device = do
  written (io 0 && io 1)
  require (any_row (is_device user device) db.devices) 404 "device not found"
  written (io 2 && io 3)
  ok (record db {
    devices = set_revoked user device db.devices;
    chats = set_pending user db.members db.chats;
  })
