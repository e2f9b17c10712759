-- ===== src/Calls/Lifecycle.antt =====
-- POST /v1/chats/{chat}/calls and the cleanup of modules/calls.go.
use qgramm.Common.{
  ℕ, ◌+◌, ◌*◌, String, Bool, true, false, not, ◌&&◌, ◌||◌, Option, none, some, List, [], ◌∷◌, ◌++◌,
  length, str_eq, ltb, ◌==◌, select, delete_rows, find, if◌then◌else◌, Outcome, ok, err, require,
  row_or, ◌>>=◌, ◌>>◌,
}
use qgramm.Store.{Bytes, Identity, Db, Engine, Member, find_chat, member, append}
use qgramm.Calls.Types.{CallState, ringing, active, ended, Call, World, Reply, is_live_state}
use qgramm.Calls.Signal.{call_permission, set_state}

-- SELECT count(*) FROM calls WHERE chat_id=? AND state IN ('ringing','active')
unfoldable pub live_calls : String → List Call → ℕ
live_calls chat cs = length (select (λ c. str_eq c.chat_id chat && is_live_state c.state) cs)

-- SELECT count(*) FROM members WHERE chat_id=? AND active=1
unfoldable pub active_members : Db → String → ℕ
active_members db chat = length (select (λ m. str_eq m.chat_id chat && m.active) db.members)

abbrev pub other_member : Db → String → String → Option Member
other_member db chat user =
    find (λ m. str_eq m.chat_id chat && m.active && not (str_eq m.user_id user)) db.members

abbrev pub event_of : Outcome (ℕ × Db) → Option (ℕ × Db)
event_of (ok r) = some r
event_of (err e) = none

-- `call` is the new uuid, `body` the event's encoded data; `io n` says whether the n-th statement of
-- the transaction gets through.
unfoldable pub create_call :
    Engine
    → (ℕ → Bool)
    → World
    → Identity
    → String
    → String
    → String
    → Bytes
    → ℕ
    → Outcome (World × Reply)
create_call e io w id chat mode call body now = do
  require (str_eq mode "audio" || str_eq mode "video") 400 "invalid call mode"
  m ← row_or (member w.db id.user_id chat) 403 "chat access denied"
  require m.can_send 403 "chat access denied"
  c ← row_or (find_chat chat w.db.chats) 400 "calls require a direct chat"
  require (str_eq c.kind "direct") 400 "calls require a direct chat"
  require (active_members w.db chat == 2) 409 "calls require two active participants"
  peer ← row_or (other_member w.db chat id.user_id) 409 "peer unavailable"
  require (live_calls chat w.calls == 0) 409 "call already in progress"
  require (io 0) 500 "create call failed"
  require (call_permission w.db id chat) 403 "call access changed"
  require (active_members w.db chat == 2) 409 "call participants changed"
  require (io 1) 500 "create call failed"
  r ←
      row_or (event_of (append e (io 2) (io 3) w.db chat "call.ringing" "" (some body) now)) 500
        "signal persistence failed"
  require (io 4) 500 "create call failed"
  ok (
    record w {
      db = r.1;
      calls =
          w.calls
          ++ record {
            id = call;
            chat_id = chat;
            caller = id.user_id;
            callee = peer.user_id;
            state = ringing;
            mode = mode;
            created_at = now;
            updated_at = now;
          }
            ∷ [];
    },
    record { seq = r.0; state = ringing },
  )

-- state='ringing' AND created_at<now-120, or state='active' AND created_at<now-43200, the bounds
-- added to the left side since time.Now is past both.
abbrev pub older : ℕ → CallState → ℕ → Bool
older now ringing created = ltb (created + 120) now
older now active created = ltb (created + 43200) now
older now ended created = false

unfoldable pub expired : ℕ → Call → Bool
expired now c = older now c.state c.created_at

-- One expired call: its row and its event, in a transaction of their own.
unfoldable pub end_expired : Engine → (ℕ → Bool) → Bytes → ℕ → World → Call → Option World
end_expired e io body now w c =
    elim (append e (io 1) (io 2) w.db c.chat_id "call.end" "" (some body) now) [
      | err x ↦ none
      | ok r ↦
          if io 0 && io 3
          then some (record w { db = r.1; calls = set_state c.id ended now w.calls })
          else none
    ]

-- The loop over the expired calls, which stops at the first failure and keeps what it committed.
unfoldable pub end_all :
    Engine → (String → ℕ → Bool) → (Call → Bytes) → ℕ → World → List Call → World × Bool
end_all e io body now w [] = (w, true)
end_all e io body now w (c ∷ cs) = elim (end_expired e (io c.id) (body c) now w c) [
  | none ↦ (w, false)
  | some w' ↦ end_all e io body now w' cs
]

-- What was kept past its time: operations after the retention hours, calls a day after their end.
abbrev pub old_operations : ℕ → ℕ → World → World
old_operations retention now w = record w {
  operations = delete_rows (λ o. ltb (o.created_at + retention * 3600) now) w.operations;
}

abbrev pub old_calls : ℕ → World → World
old_calls now w = record w {
  calls = delete_rows (λ c. not (is_live_state c.state) && ltb (c.updated_at + 86400) now) w.calls;
}

-- The cleanup: expired calls end; old operations and old calls go. `sweeps n` says whether the SELECT
-- and the two DELETEs get through.
unfoldable pub cleanup_calls :
    Engine → (ℕ → Bool) → (String → ℕ → Bool) → (Call → Bytes) → ℕ → ℕ → World → World
cleanup_calls e sweeps io body retention now w =
    let (w', done) = end_all e io body now w (select (expired now) w.calls) in
    let kept = old_operations retention now w' in
    if sweeps 0
    then (if done
        then (if sweeps 1 then (if sweeps 2 then old_calls now kept else kept) else w')
        else w')
    else w
