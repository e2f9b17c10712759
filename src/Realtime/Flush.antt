-- ===== src/Realtime/Flush.antt =====
-- The connection's loop: flush, and the commands of the client.
use qgramm.Common.{
  ℕ, zero, suc, ◌+◌, String, Bool, true, false, not, ◌||◌, List, [], ◌∷◌, ◌++◌, Option, none, some,
  delete_rows, length, str_eq, leb, ltb, if◌then◌else◌, ApiError, Outcome, ok, err,
}
use qgramm.Messages.{Event}
use qgramm.Realtime.Notify.{notify}
use qgramm.Realtime.Registry.{Hub, subscribe}
use qgramm.Common.{update_rows, ◌==◌}

-- How a flush ends: with no more events, with more of them after its ten pages, with an error that ends
-- the subscription and whether the client was told, or with a write that failed.
pub data Ending : Type 0 where
  caught_up again broken : Ending
  dropped : ApiError → Bool → Ending

-- The chat's cursor and what was written.
pub record Flushed : Type 0 where
  pub ending : Ending
  pub cursor : ℕ
  pub sent : List Event

-- The events that the loop writes, up to the first write that fails; `n` writes went before.
unfoldable pub write_events : (ℕ → Bool) → ℕ → List Event → Bool × List Event
write_events writes n [] = (true, [])
write_events writes n (v ∷ vs) =
    let rest = write_events writes (n + 1) vs in
    if writes n then (rest.0, v ∷ rest.1) else (false, [])

unfoldable pub last_seq : ℕ → List Event → ℕ
last_seq cursor [] = cursor
last_seq cursor (v ∷ vs) = last_seq v.seq vs

-- The loop over the pages: `read` is Events at a page and a cursor, with 100 as its limit.
unfoldable pub flush_pages :
    (ℕ → ℕ → Outcome (List Event)) → (ℕ → Bool) → ℕ → ℕ → ℕ → List Event → Flushed
unfolding write_events last_seq
flush_pages read writes zero page cursor sent = record {
  ending = again;
  cursor = cursor;
  sent = sent;
}
flush_pages read writes (suc left) page cursor sent = elim (read page cursor) [
  | err x ↦ record { ending = dropped x (writes (length sent)); cursor = cursor; sent = sent }
  | ok es ↦
      let done = write_events writes (length sent) es in
      let rest = flush_pages read writes left (page + 1) (last_seq cursor es) (sent ++ es) in
      let stopped : Flushed = record {
        ending = broken;
        cursor = last_seq cursor done.1;
        sent = sent ++ done.1;
      } in
      let all : Flushed = record {
        ending = caught_up;
        cursor = last_seq cursor es;
        sent = sent ++ es;
      } in
      if done.0 then (if ltb (length es) 100 then all else rest) else stopped
]

-- subscriptions[chat]
pub record Position : Type 0 where
  pub chat : String
  pub seq : ℕ

pub record Session : Type 0 where
  pub hub : Hub
  pub positions : List Position

unfoldable pub position_of : String → List Position → Option ℕ
position_of chat [] = none
position_of chat (p ∷ ps) = if str_eq p.chat chat then some p.seq else position_of chat ps

unfoldable pub drop_position : String → List Position → List Position
drop_position chat = delete_rows (λ p. str_eq p.chat chat)

unfoldable pub set_position : String → ℕ → List Position → List Position
unfolding drop_position
set_position chat n ps = record { chat = chat; seq = n } ∷ drop_position chat ps

-- What is left of a flush: whether the loop goes on, and the session.
unfoldable pub after_flush : ℕ → String → Flushed → Session → Bool × Session
unfolding set_position drop_position subscribe notify
after_flush conn chat f s = elim f.ending [
  | caught_up ↦ (true, record s { positions = set_position chat f.cursor s.positions })
  | again ↦ (
    true,
    record s {
      positions = set_position chat f.cursor s.positions;
      hub = record (s.hub) {
        connections = update_rows (λ c. c.key == conn) (notify chat) s.hub.connections;
      };
    },
  )
  | broken ↦ (false, record s { positions = set_position chat f.cursor s.positions })
  | dropped x told ↦ (
    told,
    record s { positions = drop_position chat s.positions; hub = subscribe s.hub conn chat false },
  )
]

-- flush: a chat that is not subscribed has nothing to do.
unfoldable pub flush :
    (ℕ → ℕ → Outcome (List Event)) → (ℕ → Bool) → ℕ → String → Session → Bool × Session × List Event
unfolding position_of flush_pages after_flush
flush read writes conn chat s = elim (position_of chat s.positions) [
  | none ↦ (true, s, [])
  | some cursor ↦
      let f = flush_pages read writes 10 0 cursor [] in
      ((after_flush conn chat f s).0, (after_flush conn chat f s).1, f.sent)
]

-- A decoded command; `after` is none where the number is negative.
pub record Command : Type 0 where
  pub kind : String
  pub chat : String
  pub after : Option ℕ

-- What a command makes of the session, before the flush of a new subscription.
pub data Verdict : Type 0 where
  unsubscribed refused denied : Verdict
  subscribed : ℕ → Verdict

unfoldable pub react : Bool → Session → Command → Verdict
react may_read s c = if str_eq c.kind "unsubscribe" then unsubscribed else elim c.after [
  | none ↦ refused
  | some n ↦
      if not (str_eq c.kind "subscribe") || leb 128 (length s.positions)
      then refused
      else (if may_read then subscribed n else denied)
]

-- The session after a command, and whether the loop goes on; `told` says whether an answer gets through.
unfoldable pub command :
    (ℕ → ℕ → Outcome (List Event))
    → (ℕ → Bool)
    → Bool
    → Bool
    → ℕ
    → Command
    → Session
    → Bool × Session
unfolding react flush subscribe set_position drop_position
command read writes may_read told conn c s = elim (react may_read s c) [
  | unsubscribed ↦ (
    true,
    record s {
      positions = drop_position c.chat s.positions;
      hub = subscribe s.hub conn c.chat false;
    },
  )
  | refused ↦ (told, s)
  | denied ↦ (told, s)
  | subscribed n ↦
      let opened : Session = record s {
        positions = set_position c.chat n s.positions;
        hub = subscribe s.hub conn c.chat true;
      } in
      let f = flush read writes conn c.chat opened in (f.0, f.1)
]
