-- ===== src/Realtime/Wakeups.antt =====
-- A notification of a connection is not lost, whatever the order in which its senders and its loop run.
use qgramm.Common.{
  ℕ, suc, ◌<◌, ◌≡◌, ◌⊎◌, inl, inr, refl, String, Bool, true, false, ◌||◌, eq_iff, eq_refl, List, [],
  ◌∷◌, any_row, str_eq, arith,
}
use qgramm.Realtime.{Connection, mark, signal, take_pending, forget, insert_text, delete_text}

-- A connection, the goroutines between notify's two statements, and whether its loop has received a
-- wake and not yet taken the pending chats, with the chats that it took and has not flushed.
pub record Turn : Type 0 where
  pub conn : Connection
  pub signalling : ℕ
  pub woken : Bool
  pub taken : List String

-- The atomic statements of notify, of the loop, and of the deletion of a subscription.
pub data Statement : Type 0 where
  marking flushing forgetting : String → Statement
  signalling_one receiving taking : Statement

pub data Move : Statement → Turn → Turn → Type 0 where
  marks :
      (t : Turn) (chat : String)
      → Move (marking chat) t (record t { conn = mark chat t.conn; signalling = suc t.signalling })
  signals :
      (t : Turn) (n : ℕ)
      → t.signalling ≡ suc n
      → Move signalling_one t (record t { conn = signal t.conn; signalling = n })
  receives :
      (t : Turn)
      → t.conn.wake ≡ true
      → t.woken ≡ false
      → t.taken ≡ []
      → Move receiving t (record t { conn = record (t.conn) { wake = false }; woken = true })
  takes :
      (t : Turn)
      → t.woken ≡ true
      → t.taken ≡ []
      → Move taking t (record t {
        conn = (take_pending t.conn).1;
        woken = false;
        taken = (take_pending t.conn).0;
      })
  flushes :
      (t : Turn) (chat : String) (rest : List String)
      → t.taken ≡ chat ∷ rest
      → Move (flushing chat) t (record t { taken = rest })
  forgets :
      (t : Turn) (chat : String) → Move (forgetting chat) t (record t { conn = forget chat t.conn })

-- Whether a statement flushes the chat or forgets it.
abbrev pub settles : String → Statement → Bool
settles chat (flushing k) = str_eq k chat
settles chat (forgetting k) = str_eq k chat
settles chat _ = false

-- Statements that leave the chat unsettled.
pub data Unsettled (chat : String) : Turn → Turn → Type 0 where
  rests : (t : Turn) → Unsettled chat t t
  goes_on :
      (s : Statement) (t u v : Turn)
      → Unsettled chat t u
      → Move s u v
      → settles chat s ≡ false
      → Unsettled chat t v

abbrev has_text : String → List String → Bool
has_text chat = any_row (str_eq chat)

-- The chat is pending or taken; and what is pending is announced by a full channel, by a sender that is
-- about to fill it, or by the loop that is about to take it.
abbrev IsOwed : String → Turn → Type 0
IsOwed chat t =
    ((has_text chat t.conn.pending || has_text chat t.taken) ≡ true)
    × ((t.conn.pending ≡ []) ⊎ ((t.conn.wake ≡ true) ⊎ ((0 < t.signalling) ⊎ (t.woken ≡ true))))

insert_text-has :
    (chat k : String) (xs : List String)
    → has_text chat xs ≡ true
    → has_text chat (insert_text k xs) ≡ true
unfolding insert_text
insert_text-has chat k xs h = ground arith

insert_text_self : (chat : String) (xs : List String) → has_text chat (insert_text chat xs) ≡ true
unfolding insert_text
insert_text_self chat xs = ground (arith, eq_refl chat)

delete_text-has :
    (chat k : String) (xs : List String)
    → str_eq k chat ≡ false
    → has_text chat (delete_text k xs) ≡ has_text chat xs
unfolding delete_text
delete_text-has chat k [] d = refl
delete_text-has chat k (x ∷ xs) d =
    ground (arith, delete_text-has chat k xs d, eq_iff k x, eq_iff chat x, eq_iff k chat)

delete_text-nil : (x : String) (xs : List String) → xs ≡ [] → delete_text x xs ≡ []
unfolding delete_text
delete_text-nil x [] h = refl
delete_text-nil x (y ∷ ys) h = cc

or_mono : (a b c : Bool) → (a ≡ true → b ≡ true) → (a || c) ≡ true → (b || c) ≡ true
or_mono a b c f h = ground (arith, f)

Move-IsOwed :
    (chat : String) (s : Statement) (t u : Turn)
    → Move s t u
    → settles chat s ≡ false
    → IsOwed chat t
    → IsOwed chat u
unfolding take_pending signal forget mark
Move-IsOwed chat s t u (marks _ k) d (has, a) = (
  or_mono _ _ (has_text chat t.taken) (insert_text-has chat k t.conn.pending) has,
  inr (inr (inl (omega arith))),
)
Move-IsOwed chat s t u (signals _ n full) d (has, a) = (has, inr (inl refl))
Move-IsOwed chat s t u (receives _ full idle clear) d (has, a) = (has, inr (inr (inr refl)))
Move-IsOwed chat s t u (takes _ woken clear) d (has, a) =
    (ground (arith, has, rw clear at has), inl refl)
Move-IsOwed chat s t u (flushes _ k rest some_left) d (has, a) =
    (ground (arith, d, eq_iff k chat, eq_iff chat k, rw some_left at has), a)
Move-IsOwed chat s t u (forgets _ k) d (has, inl empty) =
    (rw (delete_text-has chat k t.conn.pending d) has, inl (delete_text-nil k t.conn.pending empty))
Move-IsOwed chat s t u (forgets _ k) d (has, inr more) =
    (rw (delete_text-has chat k t.conn.pending d) has, inr more)

Unsettled-IsOwed : (chat : String) (t u : Turn) → Unsettled chat t u → IsOwed chat t → IsOwed chat u
Unsettled-IsOwed chat t u (rests _) owed = owed
Unsettled-IsOwed chat t u (goes_on s _ m _ past move d) owed =
    Move-IsOwed chat s m u move d (Unsettled-IsOwed chat t m past owed)

empty_has :
    (chat : String) (xs ys : List String)
    → ys ≡ []
    → (has_text chat xs || has_text chat ys) ≡ true
    → has_text chat xs ≡ true
empty_has chat xs ys q h = ground (arith, rw q at h)

-- A chat that a connection was told of stays owed: in whatever order the statements of any number of senders
-- and of the connection's loop follow, as long as none of them flushes or forgets the chat, the chat is
-- pending and the wake channel is full once no sender is between its two statements and the loop waits.
pub mark-wakes :
    (chat : String) (t u : Turn)
    → Unsettled chat (record t { conn = mark chat t.conn; signalling = suc t.signalling }) u
    → u.signalling ≡ 0
    → u.woken ≡ false
    → u.taken ≡ []
    → (u.conn.wake ≡ true) × (any_row (str_eq chat) u.conn.pending ≡ true)
unfolding mark
mark-wakes chat t u run alone idle clear =
    let start : IsOwed chat (record t { conn = mark chat t.conn; signalling = suc t.signalling }) =
      (rw (insert_text_self chat t.conn.pending) refl, inr (inr (inl (omega arith)))) in
    let (has, announced) = Unsettled-IsOwed chat _ u run start in
    let waiting = empty_has chat u.conn.pending u.taken clear has in
    elim announced [
      | inl empty ↦ absurd (ground (arith, rw empty at waiting))
      | inr (inl full) ↦ (full, waiting)
      | inr (inr (inl some_sender)) ↦ absurd (omega (arith, some_sender, alone))
      | inr (inr (inr woken)) ↦ absurd (ground (arith, woken, idle))
    ]
