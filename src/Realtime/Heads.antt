-- ===== src/Realtime/Heads.antt =====
-- What one batch of the poll reads, and whom it wakes.
use qgramm.Common.{
  ℕ, ◌≡◌, inl, inr, refl, sym, ap, ◌∙◌, String, Bool, true, false, List, [], ◌∷◌, Option, none,
  some, some-injective, any_row, find-holds, delete_rows, str_eq, eq_iff, eq_refl, Bool-cases,
  Option-cases, arith,
}
use qgramm.Store.{Db, Chat, find_chat}
use qgramm.Realtime.{Hub, Head, head_of, set_head, is_news, observe, observe_batch, durable_heads}
use qgramm.Realtime.Replayed.{AllNotified, observe-keeps, observe-wakes, wake_chat-subscribers}

abbrev pub has_text : String → List String → Bool
has_text chat = any_row (str_eq chat)

head_of-other :
    (chat k : String) (xs : List Head)
    → str_eq k chat ≡ false
    → head_of chat (delete_rows (λ x. str_eq x.chat k) xs) ≡ head_of chat xs
unfolding head_of
head_of-other chat k [] d = refl
head_of-other chat k (x ∷ xs) d =
    ground (arith, head_of-other chat k xs d, eq_iff x.chat k, eq_iff x.chat chat, eq_iff k chat)

set_head-other :
    (chat k : String) (n : ℕ) (xs : List Head)
    → str_eq k chat ≡ false
    → head_of chat (set_head k n xs) ≡ head_of chat xs
unfolding set_head head_of
set_head-other chat k n xs d = rw d (head_of-other chat k xs d)

-- A chat's observation leaves what was seen of the others.
observe-heads :
    (heads : List Head) (chat k : String) (h : Hub)
    → str_eq k chat ≡ false
    → head_of chat (observe heads k h).replay_heads ≡ head_of chat h.replay_heads
unfolding observe
observe-heads heads chat k h d = ground (
  arith,
  wake_chat-subscribers k h,
  head_of-other chat k h.replay_heads d,
  λ (n : ℕ). set_head-other chat k n h.replay_heads d,
)

pub batch-keeps :
    (heads : List Head) (chat : String) (chats : List String) (h : Hub)
    → AllNotified chat h
    → AllNotified chat (observe_batch heads chats h)
unfolding observe_batch
batch-keeps heads chat [] h a = a
batch-keeps heads chat (k ∷ ks) h a =
    batch-keeps heads chat ks (observe heads k h) (observe-keeps heads chat k h a)

-- A batch that has the chat, and whose query found news of it, notifies every subscriber.
pub batch-wakes :
    (heads : List Head) (chat : String) (chats : List String) (h : Hub)
    → has_text chat chats ≡ true
    → is_news (head_of chat heads) (head_of chat h.replay_heads) ≡ true
    → AllNotified chat (observe_batch heads chats h)
unfolding observe_batch
batch-wakes heads chat [] h has news = cc
batch-wakes heads chat (k ∷ ks) h has news = elim (Bool-cases (str_eq k chat)) [
  | inl q ↦
      let same : k ≡ chat = (eq_iff k chat).0 q in
      batch-keeps heads chat ks (observe heads k h) (rw same (observe-wakes heads chat h news))
  | inr q ↦
      batch-wakes heads chat ks (observe heads k h)
        (ground (arith, has, q, eq_iff k chat, eq_iff chat k))
        (ap (λ v. is_news (head_of chat heads) v) (observe-heads heads chat k h q) ∙ news)
]

pub batch-other :
    (heads : List Head) (chat : String) (chats : List String) (h : Hub)
    → has_text chat chats ≡ false
    → head_of chat (observe_batch heads chats h).replay_heads ≡ head_of chat h.replay_heads
unfolding observe_batch
batch-other heads chat [] h has = refl
batch-other heads chat (k ∷ ks) h has =
    batch-other heads chat ks (observe heads k h) (ground (arith, has))
    ∙ observe-heads heads chat k h (ground (arith, has, eq_iff k chat, eq_iff chat k))

abbrev pub seq_of : Option Chat → Option ℕ
seq_of none = none
seq_of (some c) = some c.seq

abbrev pub answer : Bool → Option Chat → Option ℕ
answer true o = seq_of o
answer false o = none

named : (k : String) (cs : List Chat) {c : Chat} → find_chat k cs ≡ some c → str_eq c.id k ≡ true
unfolding find_chat
named k cs h = find-holds (λ c. str_eq c.id k) cs h

pub durable_heads-some :
    (db : Db) (ks : List String) → (heads : List Head) × (durable_heads true db ks ≡ some heads)
unfolding durable_heads
durable_heads-some db [] = ([], refl)
durable_heads-some db (k ∷ ks) =
    let (heads, q) = durable_heads-some db ks in
    elim (Option-cases (find_chat k db.chats)) [
      | inl missing ↦ (heads, rw (q, missing) refl)
      | inr (c, found) ↦ (record { chat = c.id; seq = c.seq } ∷ heads, rw (q, found) refl)
    ]

skipped : (a chat k : String) → a ≡ k → str_eq chat k ≡ false → str_eq a chat ≡ false
skipped a chat k q d = ground (arith, eq_iff a chat, eq_iff chat k)

answer-none : (b : Bool) (o : Option Chat) → o ≡ none → answer b o ≡ none
answer-none true o q = rw q refl
answer-none false o q = refl

-- The query answers every chat that it is asked for.
pub durable_heads-head :
    (db : Db) (chat : String) (ks : List String) {heads : List Head}
    → durable_heads true db ks ≡ some heads
    → head_of chat heads ≡ answer (has_text chat ks) (find_chat chat db.chats)
unfolding durable_heads head_of
durable_heads-head db chat [] h = rw⁻¹ (some-injective _ _ h) refl
durable_heads-head db chat (k ∷ ks) {heads} h =
    let (others, q) = durable_heads-some db ks in
    let rest = durable_heads-head db chat ks q in
    elim (Option-cases (find_chat k db.chats)) [
      | inl missing ↦
          let same : others ≡ heads = some-injective _ _ (rw (q, missing) at h) in
          rw⁻¹ same (elim (Bool-cases (str_eq chat k)) [
            | inl here ↦
                let gone : find_chat chat db.chats ≡ none =
                  ap (λ v. find_chat v db.chats) ((eq_iff chat k).0 here) ∙ missing in
                rest
                ∙ answer-none (has_text chat ks) _ gone
                ∙ sym (answer-none (has_text chat (k ∷ ks)) _ gone)
            | inr other ↦ rw other rest
          ])
      | inr (c, found) ↦
          let new : Head = record { chat = c.id; seq = c.seq } in
          let same : (new ∷ others) ≡ heads = some-injective _ _ (rw (q, found) at h) in
          let id : c.id ≡ k = (eq_iff c.id k).0 (named k db.chats found) in
          rw⁻¹ same (elim (Bool-cases (str_eq chat k)) [
            | inl here ↦
                let at_chat : chat ≡ k = (eq_iff chat k).0 here in
                rw (at_chat, eq_refl k, found) (rw id (rw (eq_refl k) refl))
            | inr other ↦ rw other (rw (skipped c.id chat k id other) rest)
          ])
    ]
