-- ===== src/Store/Journal.antt =====
-- What holds of the journal, and that Append keeps it.
use qgramm.Common.{
  ℕ, ◌+◌, ◌≤◌, ◌<◌, ◌≡◌, refl, ◌∙◌, ap, map_option, find-update_rows, String, Bool, true, false,
  not, ◌&&◌, List, [], ◌∷◌, Option, none, some, arith, All, All-append, All-map, str_eq, eq_iff,
  eq_refl, ok, >>=-eq-ok, if◌then◌else◌,
}
use qgramm.Store.Schema.{Bytes, Chat, EventRow, Db}
use qgramm.Store.Sealing.{Engine}
use qgramm.Store.Queries.{find_chat, head_seq}
use qgramm.Store.Append.{storage, written, sealed_body, bump_seq, has_event, append, push_event}

-- Incrementing one chat's number changes the head of that chat alone, and only if it exists.
pub head_seq-bump_seq :
    (x k : String) (cs : List Chat)
    → head_seq x (bump_seq k cs) ≡ (
        if str_eq x k
        then elim (find_chat x cs) [ none ↦ 0 | some c ↦ c.seq + 1 ]
        else head_seq x cs)
unfolding head_seq bump_seq find_chat
head_seq-bump_seq x k [] = ground arith
head_seq-bump_seq x k (c ∷ cs) =
    ground (arith, eq_iff c.id k, eq_iff c.id x, eq_iff x k, head_seq-bump_seq x k cs)

pub head_seq-bump_le : (x k : String) (cs : List Chat) → head_seq x cs ≤ head_seq x (bump_seq k cs)
unfolding head_seq
head_seq-bump_le x k cs = ground (arith, head_seq-bump_seq x k cs)

-- No event of the journal lies above its chat's head.
abbrev pub IsBelow : List Chat → EventRow → Type 0
IsBelow cs e = e.seq ≤ head_seq e.chat_id cs

-- The journal of every chat ends at the chat's sequence number.
abbrev pub IsJournal : Db → Type 0
IsJournal db = All (IsBelow db.chats) db.events

pub has_event-above :
    (k : String) (n : ℕ) (cs : List Chat) (es : List EventRow)
    → All (IsBelow cs) es
    → head_seq k cs < n
    → has_event k n es ≡ false
unfolding has_event
has_event-above k n cs [] h l = refl
has_event-above k n cs (e ∷ es) h l =
    ground (arith, eq_iff e.chat_id k, has_event-above k n cs es h.1 l)

pub head_seq-found :
    (k : String) (cs : List Chat) (c : Chat) → find_chat k cs ≡ some c → head_seq k cs ≡ c.seq
unfolding head_seq
head_seq-found k cs c e = ground arith

-- What a successful Append did: the chat exists, and its next number went to one new event.
pub record Appended (chat kind message : String) (now : ℕ) (db : Db) (seq : ℕ) (db' : Db)
    : Type 0 where
  pub row : Chat
  pub found : find_chat chat db.chats ≡ some row
  pub next : seq ≡ row.seq + 1
  pub stored : Option Bytes
  pub pushed : db' ≡ push_event db chat seq kind message stored now

storage-eq-ok {ℓ} : {A : Type ℓ} (o : Option A) {a : A} → storage o ≡ ok a → o ≡ some a
storage-eq-ok none h = cc
storage-eq-ok (some b) h = cc

pub append-Appended :
    (e : Engine) (u i : Bool) (db : Db) (chat kind message : String) (body : Option Bytes)
    (now seq : ℕ) (db' : Db)
    → append e u i db chat kind message body now ≡ ok (seq, db')
    → Appended chat kind message now db seq db'
unfolding append
append-Appended e u i db chat kind message body now seq db' h =
    let (_, _, h1) = >>=-eq-ok (written u) _ h in
    let (c, found, h2) = >>=-eq-ok (storage (find_chat chat db.chats)) _ h1 in
    let (s, _, h3) = >>=-eq-ok (sealed_body e chat (c.seq + 1) body) _ h2 in
    let (_, _, h4) = >>=-eq-ok (written (i && not (has_event chat (c.seq + 1) db.events))) _ h3 in
    record {
      row = c;
      found = storage-eq-ok _ found;
      next = ground arith;
      stored = s;
      pushed = ground arith;
    }

-- The new number is one above the chat's head, which it becomes; no other chat's head moves.
pub head_seq-push_event :
    (x : String) (db : Db) (chat : String) (seq : ℕ) (kind message : String) (body : Option Bytes)
    (now : ℕ) {c : Chat}
    → find_chat chat db.chats ≡ some c
    → seq ≡ c.seq + 1
    → head_seq x (push_event db chat seq kind message body now).chats
      ≡ (if str_eq x chat then seq else head_seq x db.chats)
unfolding push_event
head_seq-push_event x db chat seq kind message body now {c} found e =
    ground (arith, head_seq-bump_seq x chat db.chats, eq_iff x chat, found)

pub head_seq-push_event_self :
    (db : Db) (chat : String) (seq : ℕ) (kind message : String) (body : Option Bytes) (now : ℕ)
    {c : Chat}
    → find_chat chat db.chats ≡ some c
    → seq ≡ c.seq + 1
    → head_seq chat (push_event db chat seq kind message body now).chats ≡ seq
head_seq-push_event_self db chat seq kind message body now found e =
    head_seq-push_event chat db chat seq kind message body now found e ∙ rw (eq_refl chat)

IsBelow-mono :
    (chat : String) (cs : List Chat) (es : List EventRow)
    → All (IsBelow cs) es
    → All (IsBelow (bump_seq chat cs)) es
IsBelow-mono chat cs es h =
    All-map (IsBelow cs) (IsBelow (bump_seq chat cs)) es
      (λ e l. omega (arith, l, head_seq-bump_le e.chat_id chat cs)) h

-- A successful Append keeps every event at or below its chat's head.
pub append-IsJournal :
    (e : Engine) (u i : Bool) (db : Db) (chat kind message : String) (body : Option Bytes)
    (now seq : ℕ) (db' : Db)
    → IsJournal db
    → append e u i db chat kind message body now ≡ ok (seq, db')
    → IsJournal db'
unfolding push_event
append-IsJournal e u i db chat kind message body now seq db' j h =
    let a = append-Appended e u i db chat kind message body now seq db' h in
    rw a.pushed (
      All-append (IsBelow (bump_seq chat db.chats)) db.events _
        (IsBelow-mono chat db.chats db.events j)
        (
          omega (
            arith,
            head_seq-push_event_self db chat seq kind message a.stored now a.found a.next,
          ),
          tt,
        ))

-- With both statements getting through, the invariant, and a body that is absent or seals under the
-- chat's next number, Append to a known chat succeeds: the primary key of events is never in the way.
pub append_total :
    (e : Engine) (db : Db) (chat kind message : String) (body : Option Bytes) (now : ℕ) (c : Chat)
    {stored : Option Bytes}
    → IsJournal db
    → find_chat chat db.chats ≡ some c
    → sealed_body e chat (c.seq + 1) body ≡ ok stored
    → append e true true db chat kind message body now
      ≡ ok (c.seq + 1, push_event db chat (c.seq + 1) kind message stored now)
unfolding append
append_total e db chat kind message body now c j found seals = ground (
  arith,
  found,
  seals,
  head_seq-found chat db.chats c found,
  has_event-above chat (c.seq + 1) db.chats db.events j,
)

pub find_chat-bump_seq_self :
    (k : String) (cs : List Chat) {c : Chat}
    → find_chat k cs ≡ some c
    → find_chat k (bump_seq k cs) ≡ some (record c { seq = c.seq + 1 })
unfolding find_chat bump_seq
find_chat-bump_seq_self k cs {c} h =
    find-update_rows (λ x. str_eq x.id k) (λ x. record x { seq = x.seq + 1 }) cs (λ x e. e)
    ∙ ap (map_option (λ x. record x { seq = x.seq + 1 })) h
