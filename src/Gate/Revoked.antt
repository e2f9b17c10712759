-- ===== src/Gate/Revoked.antt =====
-- A revoked device reaches no handler and no websocket.
use qgramm.Common.{
  ℕ, ◌≡◌, refl, String, Bool, true, false, Option, some, str_eq, Bool-cases, Option-cases, inl, inr,
  arith, Outcome, Outcome-cases, ApiError, ok, err, fail,
}
use qgramm.Store.{Db, Identity, Device, find_device, find_user}
use qgramm.Management.{revoke_device}
use qgramm.Management.Revocation.{revoke_device-revoked}
use qgramm.Realtime.{device_active}
use qgramm.Gate.{Claims, authenticate, authorize}

revoked_inactive :
    (reads : Bool) (db : Db) (id : Identity)
    → ((d : Device)
        → find_device id.device_id db.devices ≡ some d
        → str_eq d.user_id id.user_id ≡ true
        → d.revoked ≡ true)
    → device_active reads db id ≡ false
unfolding device_active
revoked_inactive reads db id gone = elim (Option-cases (find_device id.device_id db.devices)) [
  | inl d ↦ rw (d, device_active) refl
  | inr (d, hd) ↦ elim (Option-cases (find_user id.user_id db.users)) [
    | inl u ↦ rw (hd, u, device_active) refl
    | inr (u, hu) ↦ elim (Bool-cases (str_eq d.user_id id.user_id)) [
      | inr o ↦ ground (arith, hd, hu, o)
      | inl o ↦ let r = gone d hd o in ground (arith, hd, hu, r)
    ]
  ]
]

authenticate-err :
    (parse : String → Option Claims) (reads : Bool) (db : Db) (token : String) (c : Claims)
    → parse token ≡ some c
    → device_active reads db (record { user_id = c.subject; device_id = c.device }) ≡ false
    → (e : ApiError) × (authenticate parse reads db token ≡ err e)
unfolding authenticate
authenticate-err parse reads db token c claims gone =
    elim (Outcome-cases (authenticate parse reads db token)) [
      | inr failed ↦ failed
      | inl (id, q) ↦ absurd (ground (arith, claims, gone, q))
    ]

-- After the management interface revoked a device, every request with a token of that user and device is
-- answered with 401 whatever its handler, and the device is not active, as a websocket's admission requires.
pub revoke-refuses :
    (io : ℕ → Bool) (db : Db) (user device : String) {db' : Db} (parse : String → Option Claims)
    (reads : Bool) (token : String) (c : Claims) (A : Type 0) (handler : Identity → Outcome A)
    → revoke_device io db user device ≡ ok db'
    → parse token ≡ some c
    → c.subject ≡ user
    → c.device ≡ device
    → (authorize parse reads db' token handler ≡ fail 401 "authentication required")
      × (device_active reads db' (record { user_id = user; device_id = device }) ≡ false)
unfolding authorize
revoke-refuses io db user device {db'} parse reads token c A handler h claims u d =
    let gone =
      revoked_inactive reads db' (record { user_id = user; device_id = device })
        (revoke_device-revoked io db user device h) in
    let (e, q) = authenticate-err parse reads db' token c claims (rw (u, d) gone) in
    (rw (q, authorize) refl, gone)
