-- ===== src/Realtime/Admit.antt =====
-- Tickets, and the admission of a websocket.
use qgramm.Common.{
  ℕ, ◌+◌, ◌-◌, String, Bool, false, not, ◌&&◌, ◌||◌, List, [], ◌∷◌, ◌++◌, Option, none, some, find,
  any_row, delete_rows, str_eq, leb, ◌==◌, if◌then◌else◌, Outcome, ok, fail, require, row_or, ◌>>=◌,
  ◌>>◌,
}
use qgramm.Store.{Identity, Db, find_device, find_user}
use qgramm.Realtime.Registry.{Hub, subscribe}

pub record Ticket : Type 0 where
  pub hash : String
  pub device_id : String
  pub user_id : String
  pub expires : ℕ

-- deviceActive
unfoldable pub device_active : Bool → Db → Identity → Bool
device_active reads db id = elim (find_device id.device_id db.devices) [
  | none ↦ false
  | some d ↦ elim (find_user id.user_id db.users) [
    | none ↦ false
    | some u ↦ reads && str_eq d.user_id id.user_id && not d.revoked && not u.disabled
  ]
]

-- Core.ticket, of an already hashed random text.
unfoldable pub issue : Bool → Identity → String → ℕ → List Ticket → Outcome (List Ticket)
issue writes id hash now ts = do
  require (writes && not (any_row (λ t. str_eq t.hash hash) ts)) 503 "storage unavailable"
  ok (
      ts
      ++ record { hash = hash; device_id = id.device_id; user_id = id.user_id; expires = now + 30 }
        ∷ [])

abbrev pub redeems : String → ℕ → Ticket → Bool
redeems hash now t = str_eq t.hash hash && leb now t.expires

-- DELETE FROM tickets WHERE hash=? AND expires>=? RETURNING user_id,device_id
unfoldable pub redeem : String → ℕ → List Ticket → Option Identity × List Ticket
redeem hash now ts = (
  elim (find (redeems hash now) ts) [
    | none ↦ none
    | some t ↦ some (record { user_id = t.user_id; device_id = t.device_id })
  ],
  delete_rows (redeems hash now) ts,
)

abbrev pub origin_allowed : List String → String → Bool
origin_allowed origins origin = str_eq origin "" || any_row (λ o. str_eq o origin) origins

-- A place for a connection, if fewer than `max` are taken.
unfoldable pub take_place : ℕ → Hub → Outcome Hub
take_place max h =
    require (not (leb max h.active)) 503 "connection capacity reached"
    >> ok (record h { active = h.active + 1 })

-- websocket, up to the upgrade: the tickets that are left, and the identity with its place.
unfoldable pub admit :
    ℕ
    → List String
    → (String → String)
    → (ℕ → Bool)
    → Db
    → String
    → String
    → ℕ
    → List Ticket
    → Hub
    → List Ticket × Outcome (Identity × Hub)
unfolding redeem device_active take_place
admit max origins hash io db origin ticket now ts h =
    if not (origin_allowed origins origin)
    then (ts, fail 403 "origin denied")
    else (if str_eq ticket ""
        then (ts, fail 401 "one-time ticket required")
        else (if not (io 0) then (ts, fail 401 "invalid or expired ticket") else (
          (redeem (hash ticket) now ts).1,
          do
            id ← row_or (redeem (hash ticket) now ts).0 401 "invalid or expired ticket"
            require (device_active (io 1) db id) 401 "invalid or expired ticket"
            h' ← take_place max h
            ok (id, h'),
        )))

-- The upgrade failed.
unfoldable pub give_back : Hub → Hub
give_back h = record h { active = h.active - 1 }

-- The upgraded connection, under a new pointer.
unfoldable pub register : ℕ → Identity → Hub → Hub
register key id h = record h {
  connections =
      h.connections
      ++ record { key = key; id = id; wake = false; pending = []; is_done = false } ∷ [];
}

-- The deletion of every subscription that the loop still had.
unfoldable pub unsubscribe_all : ℕ → List String → Hub → Hub
unfolding subscribe
unsubscribe_all key [] h = h
unsubscribe_all key (chat ∷ chats) h = unsubscribe_all key chats (subscribe h key chat false)

-- What runWebsocket does when its loop returns.
unfoldable pub leave : ℕ → List String → Hub → Hub
unfolding unsubscribe_all give_back
leave key chats h =
    let left = unsubscribe_all key chats h in
    give_back (record left { connections = delete_rows (λ c. c.key == key) left.connections })
