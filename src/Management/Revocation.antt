-- ===== src/Management/Revocation.antt =====
-- A revoked device no longer passes any check of a request.
use qgramm.Common.{
  ℕ, ◌≡◌, refl, sym, ap, ◌∙◌, subst, String, Bool, true, ◌&&◌, none, some, List, [], ◌∷◌, arith,
  any_row, str_eq, Bool-cases, Option-cases, inl, inr, ok, require, >>=-eq-ok, ok-injective,
  some-injective,
}
use qgramm.Store.{
  Db, Identity, Device, find_device, find_user, find_member, find_seat, find_live_seat, written,
}
use qgramm.Management.{set_revoked, revoke_device}
use qgramm.Management.Accounts.{is_device}

first_row :
    (user device : String) (x : Device) (ds : List Device)
    → str_eq x.id device ≡ true
    → str_eq x.user_id user ≡ true
    → find_device device (set_revoked user device (x ∷ ds)) ≡ some (record x { revoked = true })
unfolding find_device set_revoked
first_row user device x ds e u = ground (arith, e, u)

-- The row under the device's id, if it is the user's, is revoked.
find_device-set_revoked :
    (user device : String) (ds : List Device) (d : Device)
    → find_device device (set_revoked user device ds) ≡ some d
    → str_eq d.user_id user ≡ true
    → d.revoked ≡ true
unfolding find_device set_revoked
find_device-set_revoked user device [] d h own = cc
find_device-set_revoked user device (x ∷ ds) d h own = elim (Bool-cases (str_eq x.id device)) [
  | inl e ↦ elim (Bool-cases (str_eq x.user_id user)) [
    | inl u ↦
        let same : some (record x { revoked = true }) ≡ some d =
          sym (first_row user device x ds e u) ∙ h in
        ap (λ (y : Device). y.revoked) (sym (some-injective (record x { revoked = true }) d same))
    | inr u ↦ absurd (ground (arith, e, u, h, own))
  ]
  | inr e ↦ find_device-set_revoked user device ds d (ground (arith, e, h)) own
]

-- A device that is revoked whenever it is the user's has no live seat.
no_live_seat :
    (db : Db) (id : Identity) (chat : String)
    → ((d : Device)
        → find_device id.device_id db.devices ≡ some d
        → str_eq d.user_id id.user_id ≡ true
        → d.revoked ≡ true)
    → find_live_seat db id chat ≡ none
unfolding find_live_seat find_seat
no_live_seat db id chat gone = elim (Option-cases (find_member chat id.user_id db.members)) [
  | inl m ↦ rw m refl
  | inr (m, hm) ↦ elim (Option-cases (find_device id.device_id db.devices)) [
    | inl d ↦ rw (hm, d) refl
    | inr (d, hd) ↦ elim (Bool-cases (str_eq d.user_id id.user_id)) [
      | inr o ↦ rw (hm, hd, o) refl
      | inl o ↦ elim (Option-cases (find_user id.user_id db.users)) [
        | inl u ↦ rw (hm, hd, o, u) refl
        | inr (u, hu) ↦ let r = gone d hd o in ground (arith, hm, hd, o, hu, r)
      ]
    ]
  ]
]

-- After a device was revoked, its row is revoked.
pub revoke_device-revoked :
    (io : ℕ → Bool) (db : Db) (user device : String) {db' : Db}
    → revoke_device io db user device ≡ ok db'
    → (d : Device) → find_device device db'.devices ≡ some d
    → str_eq d.user_id user ≡ true
    → d.revoked ≡ true
unfolding revoke_device
revoke_device-revoked io db user device {db'} h =
    let (_, _, h1) = >>=-eq-ok (written (io 0 && io 1)) _ h in
    let (_, _, h2) =
      >>=-eq-ok (require (any_row (is_device user device) db.devices) 404 "device not found") _
        h1 in
    let (_, _, h3) = >>=-eq-ok (written (io 2 && io 3)) _ h2 in
    let devices : set_revoked user device db.devices ≡ db'.devices =
      ap (λ x. x.devices) (ok-injective _ _ h3) in
    subst
      (λ ds.
        (d : Device)
        → find_device device ds ≡ some d
        → str_eq d.user_id user ≡ true
        → d.revoked ≡ true)
      devices (find_device-set_revoked user device db.devices)

-- After a device was revoked, the join of members, devices and users by which every request is checked
-- finds nothing for it, in any chat.
pub revoke_device-none :
    (io : ℕ → Bool) (db : Db) (user device chat : String) {db' : Db}
    → revoke_device io db user device ≡ ok db'
    → find_live_seat db' (record { user_id = user; device_id = device }) chat ≡ none
revoke_device-none io db user device chat {db'} h =
    no_live_seat db' (record { user_id = user; device_id = device }) chat
      (revoke_device-revoked io db user device h)
