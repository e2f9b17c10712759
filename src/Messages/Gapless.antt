-- ===== src/Messages/Gapless.antt =====
-- Append keeps a journal without gaps.
use qgramm.Common.{
  ℕ, ◌+◌, ◌≤◌, ◌<◌, ◌≡◌, ◌≢◌, ◌⊎◌, refl, sym, ◌∙◌, String, Bool, true, false, List, [], ◌∷◌, ◌++◌,
  Option, none, some, arith, All, All-map, str_eq, eq_iff, eq_refl, ◌==◌, ==_iff, if◌then◌else◌,
  Bool-cases, Option-cases, inl, inr, ok,
}
use qgramm.Store.{
  Bytes, Db, Engine, Chat, EventRow, IsJournal, IsBelow, head_seq, head_seq-found,
  head_seq-push_event, find_chat, push_event, append, append-Appended, has_key,
}
use qgramm.Messages.{in_chat_event, min_event}
use qgramm.Messages.Contiguous.{IsGapless}
use qgramm.Messages.Pages.{row_seq}

has_key-append :
    (test : EventRow → Bool) (k : ℕ) (xs : List EventRow) (y : EventRow)
    → (has_key row_seq test k xs ≡ true) ⊎ ((test y ≡ true) × (row_seq y ≡ k))
    → has_key row_seq test k (xs ++ y ∷ []) ≡ true
unfolding has_key
has_key-append test k [] y (inl h) = cc
has_key-append test k [] y (inr (t, q)) = ground (arith, t, q)
has_key-append test k (x ∷ xs) y (inl h) =
    ground (arith, λ (p : has_key row_seq test k xs ≡ true). has_key-append test k xs y (inl p))
has_key-append test k (x ∷ xs) y (inr h) = ground (arith, has_key-append test k xs y (inr h))

-- The oldest event after one more, whose number is above those of its chat.
min_event-append :
    (k : String) (xs : List EventRow) (y : EventRow)
    → All (λ r. str_eq y.chat_id k ≡ true → in_chat_event k r ≡ true → r.seq < y.seq) xs
    → min_event k (xs ++ y ∷ []) ≡ (elim (min_event k xs) [
      | none ↦ (if str_eq y.chat_id k then some y.seq else none)
      | some n ↦ some n
    ])
unfolding min_event
min_event-append k [] y a = ground arith
min_event-append k (x ∷ xs) y a = ground (arith, min_event-append k xs y a.1, a.0)

-- The oldest event stays the oldest, or is the new one.
oldest :
    (k : String) (xs : List EventRow) (y : EventRow) (first : ℕ)
    → All (λ r. str_eq y.chat_id k ≡ true → in_chat_event k r ≡ true → r.seq < y.seq) xs
    → min_event k (xs ++ y ∷ []) ≡ some first
    → (min_event k xs ≡ some first) ⊎ ((str_eq y.chat_id k ≡ true) × (y.seq ≡ first))
oldest k xs y first a h =
    let q = sym (min_event-append k xs y a) ∙ h in
    elim (Option-cases (min_event k xs)) [
      | inl n ↦ inr (ground (arith, (rw n at q)))
      | inr (m, n) ↦ inl (n ∙ (rw n at q))
    ]

below_new :
    (r : EventRow) (chat k : String) (seq : ℕ) (c : Chat) (db : Db)
    → find_chat chat db.chats ≡ some c
    → seq ≡ c.seq + 1
    → r.seq ≤ head_seq r.chat_id db.chats
    → str_eq chat k ≡ true
    → str_eq r.chat_id k ≡ true
    → r.seq < seq
below_new r chat k seq c db found next low same here =
    let head = head_seq-found chat db.chats c found in
    let at_chat : r.chat_id ≡ chat = (eq_iff r.chat_id k).0 here ∙ sym ((eq_iff chat k).0 same) in
    omega (arith, rw at_chat at low, head)

not_equal : (n m : ℕ) → (n == m) ≡ false → n ≢ m
not_equal n m q h = absurd (ground (arith, q, h))

covered :
    (db : Db) (chat k : String) (seq n first : ℕ) (c : Chat) {after : ℕ}
    → find_chat chat db.chats ≡ some c
    → seq ≡ c.seq + 1
    → IsGapless db k
    → first ≤ n
    → after ≡ (if str_eq k chat then seq else head_seq k db.chats)
    → n ≤ after
    → (min_event k db.events ≡ some first) ⊎ ((str_eq chat k ≡ true) × (seq ≡ first))
    → (has_key row_seq (in_chat_event k) n db.events ≡ true) ⊎ ((str_eq chat k ≡ true) × (seq ≡ n))
covered db chat k seq n first c {after} found next g lo head hi (inr (same, top)) =
    let here : k ≡ chat = sym ((eq_iff chat k).0 same) in
    let head' : after ≡ seq = head ∙ rw here (rw (eq_refl chat) refl) in
    inr (same, omega (arith, head', hi, lo, top))
covered db chat k seq n first c found next g lo head hi (inl old) =
    elim (Bool-cases (str_eq k chat)) [
      | inr e ↦ inl (g first old n lo (omega (arith, rw e at head, hi)))
      | inl e ↦ elim (Bool-cases (n == seq)) [
        | inl q ↦ inr (rw ((eq_iff k chat).0 e) (eq_refl chat), sym ((==_iff n seq).0 q))
        | inr q ↦
            let here : k ≡ chat = (eq_iff k chat).0 e in
            let top : head_seq k db.chats ≡ c.seq =
              rw here (head_seq-found chat db.chats c found) in
            let apart = not_equal n seq q in
            inl (g first old n lo (omega (arith, rw e at head, hi, apart, top)))
      ]
    ]

-- An event under the next number of its chat leaves no gap, in its own chat and in the others.
push_event-IsGapless :
    (db : Db) (chat : String) (seq : ℕ) (kind message : String) (body : Option Bytes) (now : ℕ)
    (c : Chat) (k : String)
    → find_chat chat db.chats ≡ some c
    → seq ≡ c.seq + 1
    → IsJournal db
    → IsGapless db k
    → IsGapless (push_event db chat seq kind message body now) k
unfolding push_event
push_event-IsGapless db chat seq kind message body now c k found next j g first q n lo hi =
    let new : EventRow = record {
      chat_id = chat;
      seq = seq;
      kind = kind;
      message_id = message;
      body = body;
      created_at = now;
    } in
    let above : All (λ r. str_eq chat k ≡ true → in_chat_event k r ≡ true → r.seq < seq) db.events =
      All-map (IsBelow db.chats)
        (λ r. str_eq chat k ≡ true → in_chat_event k r ≡ true → r.seq < seq) db.events
        (λ r low same here. below_new r chat k seq c db found next low same here) j in
    has_key-append (in_chat_event k) n db.events new (
      covered db chat k seq n first c found next g lo
        (head_seq-push_event k db chat seq kind message body now found next) hi
        (oldest k db.events new first above q))

-- A successful Append keeps the journal of every chat without gaps.
pub append-IsGapless :
    (e : Engine) (u i : Bool) (db : Db) (chat kind message : String) (body : Option Bytes)
    (now seq : ℕ) (db' : Db) (k : String)
    → IsJournal db
    → IsGapless db k
    → append e u i db chat kind message body now ≡ ok (seq, db')
    → IsGapless db' k
append-IsGapless e u i db chat kind message body now seq db' k j g h =
    let a = append-Appended e u i db chat kind message body now seq db' h in
    rw a.pushed
      (push_event-IsGapless db chat seq kind message a.stored now a.row k a.found a.next j g)
