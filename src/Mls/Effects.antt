-- ===== src/Mls/Effects.antt =====
-- What the relay's calls do to its tables.
use qgramm.Common.{
  ℕ, ◌≡◌, ◌⊎◌, inl, inr, ◌∙◌, sym, ap, ok-injective, String, Bool, false, ◌&&◌, List, [], ◌∷◌, ◌++◌,
  Option, none, some, arith, any_row, str_eq, ok, require, row_or, >>=-eq-ok, row_or-eq-ok, length,
  leb,
}
use qgramm.Store.{Bytes, Identity, Engine, mls_package_aad, append}
use qgramm.Mls.{
  event_of, event_of-eq-some, set_barrier, Transition, RelayMember, Previous, initial, below,
  at_epoch, conflict-eq-ok, registered, same_bytes, store_welcome, welcome_one, welcome_all,
  check_commit, insert_transition, pending_row, submit_commit, check_confirm, applied,
  confirm_epoch, confirm_transition, confirm_row, init_relay, Relay, KeyPackage, Suite, Hooks,
  CommitInput, WelcomeInput, ConfirmInput, Claimed, claim_package, upload_package, use_package,
}

pub insert-keeps :
    (writes : Bool) (t : Transition) (r : Relay) {r' : Relay}
    → insert_transition writes t r ≡ some r'
    → (r'.packages ≡ r.packages) × (r'.db ≡ r.db)
unfolding insert_transition
insert-keeps writes t r h = ground arith

store_welcome-keeps :
    (e : Engine) (s : Suite) (writes : Bool) (r : Relay) (chat target : String) (epoch : ℕ)
    (control : String) (wire : Bytes) (now : ℕ) (r' : Relay)
    → store_welcome e s writes r chat target epoch control wire now ≡ some r'
    → (r'.packages ≡ r.packages) × (r'.transitions ≡ r.transitions) × (r'.db ≡ r.db)
unfolding store_welcome
store_welcome-keeps e s writes r chat target epoch control wire now r' h = ground arith

module _ (e : Engine) (s : Suite) (io : ℕ → Bool) (fresh : String → String) (chat : String)
    (now : ℕ) where
  pub welcome_one-keeps :
      (r : Relay) (epoch : ℕ) (targets : List String) (item : WelcomeInput) {r' : Relay}
      → welcome_one e s io fresh chat now r epoch targets item ≡ ok r'
      → (r'.packages ≡ use_package item.key_package_id r.packages)
        × (r'.transitions ≡ r.transitions)
        × (r'.db ≡ r.db)
  unfolding welcome_one
  welcome_one-keeps r epoch targets item h = ground (arith, store_welcome-keeps e s)

  -- A commit that was accepted: its transition was inserted, and then its welcomes.
  pub submit-parts :
      (hooks : Hooks) (r : Relay) (id : Identity) (input : CommitInput) (transition : String)
      {r' : Relay}
      → submit_commit e s hooks io fresh r id chat input transition now ≡ ok r'
      → (t : Transition) × (r1 r2 : Relay) × (n : ℕ) × (insert_transition (io 2) t r ≡ some r1)
        × (welcome_all e s io fresh chat now r1 n [] input.welcomes ≡ ok r2)
        × (r'.packages ≡ r2.packages)
        × (r'.transitions ≡ r2.transitions)
        × (body : Option Bytes) × (seq : ℕ) × (append e
              (io 6)
              (io 7)
              (record (r2.db) { chats = set_barrier chat r2.db.chats })
              chat
              "mls.commit.pending"
              ""
              body
              now
            ≡ ok (seq, r'.db))
  unfolding submit_commit
  submit-parts hooks r id input transition {r'} h =
      let (a, _, h1) =
        >>=-eq-ok (check_commit e s hooks io r id chat input.commit transition) _ h in
      let t = pending_row id chat transition a.0.chat.epoch (s.digest a.1) a.2 now in
      let (r1, i, h2) =
        >>=-eq-ok (row_or (insert_transition (io 2) t r) 409 "epoch transition already pending") _
          h1 in
      let (_, _, h3) =
        >>=-eq-ok (require (leb (length input.welcomes) 1024) 400 "too many Welcome recipients") _
          h2 in
      let (r2, w, h4) =
        >>=-eq-ok (welcome_all e s io fresh chat now r1 a.0.chat.epoch [] input.welcomes) _ h3 in
      let (_, _, h5) = >>=-eq-ok (require (io 5) 500 "barrier persistence failed") _ h4 in
      let body = some (s.encode_pending transition a.0.chat.epoch (s.digest a.1)) in
      let (r3, logged, h6) =
        >>=-eq-ok
          (row_or
            (event_of (
              append e (io 6) (io 7) (record (r2.db) { chats = set_barrier chat r2.db.chats }) chat
                "mls.commit.pending" "" body now))
            500 "event persistence failed")
          _ h5 in
      let (_, _, h7) = >>=-eq-ok (require (io 8) 409 "concurrent MLS transition") _ h6 in
      let end : record r2 { db = r3.1 } ≡ r' = ok-injective _ _ h7 in
      let appended = event_of-eq-some _ (row_or-eq-ok _ _ _ logged) in
      (
        t,
        r1,
        r2,
        a.0.chat.epoch,
        row_or-eq-ok _ _ _ i,
        w,
        ap (λ v. v.packages) (sym end),
        ap (λ v. v.transitions) (sym end),
        body,
        r3.0,
        appended ∙ ap (λ v. ok (r3.0, v.db)) end,
      )

init-keeps :
    (s : Suite) (io : ℕ → Bool) (r : Relay) (chat : String) (group_id context : Bytes) (epoch : ℕ)
    (roster : List RelayMember) {r' : Relay}
    → init_relay s io r chat group_id context epoch roster ≡ ok r'
    → (r'.packages ≡ r.packages) × (r'.transitions ≡ r.transitions)
unfolding init_relay
init-keeps s io r chat group_id context epoch roster h = ground arith

confirm_transition-keeps :
    (s : Suite) (hooks : Hooks) (io : ℕ → Bool) (r : Relay) (chat : String) (context : Bytes)
    (input : ConfirmInput) (n : ℕ) (wire : Bytes) {r' : Relay}
    → confirm_transition s hooks io r chat context input n wire ≡ ok r'
    → (r'.packages ≡ r.packages) × (r'.transitions ≡ confirm_row input.transition_id r.transitions)
unfolding confirm_transition
confirm_transition-keeps s hooks io r chat context input n wire h = ground arith

-- An applied confirmation keeps the packages, and closes its transition or none.
applied-keeps :
    (s : Suite) (hooks : Hooks) (io init_io : ℕ → Bool) (r : Relay) (chat : String)
    (group_id context : Bytes) (input : ConfirmInput) (wire : Bytes) (p : Previous) {r' : Relay}
    → applied s hooks io init_io r chat group_id context input wire p ≡ ok r'
    → (r'.packages ≡ r.packages)
      × ((r'.transitions ≡ r.transitions)
          ⊎ (r'.transitions ≡ confirm_row input.transition_id r.transitions))
applied-keeps s hooks io init_io r chat group_id context input wire initial h =
    let (packages, transitions) =
      init-keeps s init_io r chat group_id context input.epoch input.roster (
        conflict-eq-ok (init_relay s init_io r chat group_id context input.epoch input.roster) h) in
    (packages, inl transitions)
applied-keeps s hooks io init_io r chat group_id context input wire below h = cc
applied-keeps s hooks io init_io r chat group_id context input wire (at_epoch n) h =
    let (packages, transitions) =
      confirm_transition-keeps s hooks io r chat context input n wire h in
    (packages, inr transitions)

pub confirm-keeps :
    (e : Engine) (s : Suite) (hooks : Hooks) (io init_io : ℕ → Bool) (r : Relay) (chat : String)
    (input : ConfirmInput) (now : ℕ) {r' : Relay}
    → confirm_epoch e s hooks io init_io r chat input now ≡ ok r'
    → (r'.packages ≡ r.packages)
      × ((r'.transitions ≡ r.transitions)
          ⊎ (r'.transitions ≡ confirm_row input.transition_id r.transitions))
unfolding confirm_epoch
confirm-keeps e s hooks io init_io r chat input now {r'} h =
    let (a, _, h1) = >>=-eq-ok (check_confirm e s io r chat input) _ h in
    let (r1, one, h2) =
      >>=-eq-ok (applied s hooks io init_io r chat a.0 a.1 input a.2 input.previous_epoch) _ h1 in
    let packages : r'.packages ≡ r1.packages = ground arith in
    let transitions : r'.transitions ≡ r1.transitions = ground arith in
    let (packages', transitions') =
      applied-keeps s hooks io init_io r chat a.0 a.1 input a.2 input.previous_epoch one in
    (packages ∙ packages', rw transitions transitions')

pub claim-transitions :
    (e : Engine) (s : Suite) (io : ℕ → Bool) (r : Relay) (id : Identity) (chat target : String)
    {r' : Relay} {c : Claimed}
    → claim_package e s io r id chat target ≡ ok (r', c)
    → r'.transitions ≡ r.transitions
unfolding claim_package
claim-transitions e s io r id chat target h = ground arith

-- An upload adds a package under an identifier that the table does not have.
pub upload-row :
    (e : Engine) (s : Suite) (io : ℕ → Bool) (r : Relay) (id : Identity) (encoded : String)
    (now : ℕ) {r' : Relay} {k : String}
    → upload_package e s io r id encoded now ≡ ok (r', k)
    → (p : KeyPackage) × (r'.packages ≡ r.packages ++ p ∷ [])
      × (any_row (λ q. str_eq q.id p.id) r.packages ≡ false)
      × (r'.transitions ≡ r.transitions)
unfolding upload_package
upload-row e s io r id encoded now {r'} {k} h =
    let (wire, _, h1) =
      >>=-eq-ok (row_or (s.decode_base64 encoded) 400 "invalid KeyPackage encoding") _ h in
    let (who, _, h2) =
      >>=-eq-ok (row_or (s.package_identity wire) 400 "invalid device KeyPackage") _ h1 in
    let (_, _, h3) =
      >>=-eq-ok (require (str_eq who.0 id.device_id && io 0) 400 "invalid device KeyPackage") _
        h2 in
    let (d, _, h4) = >>=-eq-ok (row_or (registered r.db id) 400 "invalid device KeyPackage") _ h3 in
    let (key, _, h5) =
      >>=-eq-ok
        (row_or (s.decode_base64 d.signing_key) 403
          "KeyPackage signing key differs from registered device")
        _ h4 in
    let (_, _, h6) =
      >>=-eq-ok
        (require (same_bytes who.1 key) 403 "KeyPackage signing key differs from registered device")
        _ h5 in
    let (stored, _, h7) =
      >>=-eq-ok
        (row_or (e.seal wire (mls_package_aad (s.digest wire) id.device_id)) 500
          "KeyPackage encryption failed")
        _ h6 in
    let (_, _, h8) = >>=-eq-ok (require (io 1) 500 "KeyPackage persistence failed") _ h7 in
    let p : KeyPackage = record {
      id = s.digest wire;
      device_id = id.device_id;
      payload = stored;
      claimed_chat = none;
      used = false;
      created_at = now;
    } in
    (p, ground arith, ground arith, ground arith)
