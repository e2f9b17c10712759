-- ===== src/Realtime/Polling.antt =====
-- The whole poll: its batches cover the chats that have subscribers.
use qgramm.Common.{
  ℕ, zero, suc, ◌+◌, ◌≤◌, ◌≡◌, inl, inr, refl, ap, ◌∙◌, String, Bool, true, not, ◌||◌, List, [],
  ◌∷◌, Option, some, any_row, delete_rows, length, take, drop, str_eq, eq_iff, eq_refl, Bool-cases,
  Option-cases, arith,
}
use qgramm.Store.{Db, find_chat}
use qgramm.Realtime.{
  Hub, Head, Subscription, insert_text, head_of, has_subscriber, is_news, observe, observe_batch,
  durable_heads, batches, poll_batches, subscribed_chats, prune, poll,
}
use qgramm.Realtime.Replayed.{AllNotified, observe-subscribers}
use qgramm.Realtime.Heads.{
  has_text, batch-keeps, batch-wakes, batch-other, seq_of, durable_heads-some, durable_heads-head,
}

batch-subscribers :
    (heads : List Head) (chats : List String) (h : Hub)
    → (observe_batch heads chats h).subscribers ≡ h.subscribers
unfolding observe_batch
batch-subscribers heads [] h = refl
batch-subscribers heads (k ∷ ks) h =
    batch-subscribers heads ks (observe heads k h) ∙ observe-subscribers heads k h

poll_batches-subscribers :
    (dbs : ℕ → Db) (reads : ℕ → Bool) (i : ℕ) (bs : List (List String)) (h : Hub)
    → (poll_batches reads dbs i bs h).subscribers ≡ h.subscribers
unfolding poll_batches
poll_batches-subscribers dbs reads i [] h = refl
poll_batches-subscribers dbs reads i (b ∷ bs) h =
    elim (Option-cases (durable_heads (reads i) (dbs i) b)) [
      | inl failed ↦ rw (failed, poll_batches) (poll_batches-subscribers dbs reads (i + 1) bs h)
      | inr (heads, q) ↦
          rw (q, poll_batches)
            (poll_batches-subscribers dbs reads (i + 1) bs (observe_batch heads b h)
              ∙ batch-subscribers heads b h)
    ]

module _ (dbs : ℕ → Db) (chat : String) where
  batches-keep :
      (reads : ℕ → Bool) (i : ℕ) (bs : List (List String)) (h : Hub)
      → AllNotified chat h
      → AllNotified chat (poll_batches reads dbs i bs h)
  unfolding poll_batches
  batches-keep reads i [] h a = a
  batches-keep reads i (b ∷ bs) h a = elim (Option-cases (durable_heads (reads i) (dbs i) b)) [
    | inl failed ↦ rw (failed, poll_batches) (batches-keep reads (i + 1) bs h a)
    | inr (heads, q) ↦
        rw (q, poll_batches)
          (batches-keep reads (i + 1) bs (observe_batch heads b h) (batch-keeps heads chat b h a))
  ]

  batches-wake :
      (reads : ℕ → Bool) (o : Option ℕ) (i : ℕ) (bs : List (List String)) (h : Hub)
      → ((j : ℕ) → reads j ≡ true)
      → ((j : ℕ) → seq_of (find_chat chat (dbs j).chats) ≡ o)
      → any_row (has_text chat) bs ≡ true
      → is_news o (head_of chat h.replay_heads) ≡ true
      → AllNotified chat (poll_batches reads dbs i bs h)
  unfolding poll_batches
  batches-wake reads o i [] h works same has news = cc
  batches-wake reads o i (b ∷ bs) h works same has news =
      let (heads, q) = durable_heads-some (dbs i) b in
      let answered : durable_heads (reads i) (dbs i) b ≡ some heads = rw (works i) q in
      rw (answered, poll_batches)
        (elim (Bool-cases (has_text chat b)) [
          | inl here ↦
              let head : head_of chat heads ≡ o =
                durable_heads-head (dbs i) chat b q ∙ rw here (same i) in
              batches-keep reads (i + 1) bs (observe_batch heads b h)
                (batch-wakes heads chat b h here (rw head news))
          | inr other ↦
              batches-wake reads o (i + 1) bs (observe_batch heads b h) works same (rw other at has)
                (rw (batch-other heads chat b h other) news)
        ])

take-drop-has :
    (chat : String) (n : ℕ) (xs : List String)
    → has_text chat xs ≡ (has_text chat (take n xs) || has_text chat (drop n xs))
take-drop-has chat n [] = refl
take-drop-has chat zero (x ∷ xs) = refl
take-drop-has chat (suc n) (x ∷ xs) = ground (arith, take-drop-has chat n xs)

length-drop : (n : ℕ) (xs : List String) → length (drop n xs) ≤ length xs
length-drop n [] = omega arith
length-drop zero (x ∷ xs) = omega arith
length-drop (suc n) (x ∷ xs) = omega (arith, length-drop n xs)

-- With fuel for every chat, each chat is in a batch.
batches-has :
    (chat : String) (fuel size : ℕ) (xs : List String)
    → length xs ≤ fuel
    → has_text chat xs ≡ true
    → any_row (has_text chat) (batches fuel (suc size) xs) ≡ true
unfolding batches
batches-has chat zero size [] l has = cc
batches-has chat zero size (x ∷ xs) l has = absurd (omega (arith, l))
batches-has chat (suc fuel) size [] l has = cc
batches-has chat (suc fuel) size (x ∷ xs) l has = ground (
  arith,
  has,
  take-drop-has chat (suc size) (x ∷ xs),
  batches-has chat fuel size (drop size xs) (omega (arith, l, length-drop size xs)),
)

insert_text-has :
    (chat k : String) (xs : List String)
    → (str_eq k chat || has_text chat xs) ≡ true
    → has_text chat (insert_text k xs) ≡ true
unfolding insert_text
insert_text-has chat k xs h = ground (arith, eq_iff k chat, eq_iff chat k, eq_refl chat)

subscribed_chats-has :
    (chat : String) (ss : List Subscription)
    → any_row (λ s. str_eq s.chat chat) ss ≡ true
    → has_text chat (subscribed_chats ss) ≡ true
unfolding subscribed_chats
subscribed_chats-has chat [] h = h
subscribed_chats-has chat (s ∷ ss) h =
    insert_text-has chat s.chat (subscribed_chats ss)
      (ground (arith, h, subscribed_chats-has chat ss))

prune-head :
    (chat : String) (h : Hub) (xs : List Head)
    → has_subscriber chat h ≡ true
    → head_of chat (delete_rows (λ x. not (has_subscriber x.chat h)) xs) ≡ head_of chat xs
unfolding head_of
prune-head chat h [] q = refl
prune-head chat h (x ∷ xs) q = elim (Bool-cases (str_eq x.chat chat)) [
  | inl same ↦
      let kept : has_subscriber x.chat h ≡ true =
        ap (λ v. has_subscriber v h) ((eq_iff x.chat chat).0 same) ∙ q in
      rw kept (rw same refl)
  | inr other ↦ elim (Bool-cases (has_subscriber x.chat h)) [
    | inl kept ↦ rw kept (rw other (prune-head chat h xs q))
    | inr gone ↦ rw gone (rw other (prune-head chat h xs q))
  ]
]

-- A poll whose queries succeed, and read one head of a chat that has subscribers throughout, wakes every
-- subscriber of the chat if the head is another one than the last poll saw, or the first, or if the chat is
-- gone: the subscribers stay, the chat is pending on each of their connections, and its wake channel is full.
pub poll-wakes :
    (reads : ℕ → Bool) (dbs : ℕ → Db) (h : Hub) (chat : String) (o : Option ℕ)
    → ((i : ℕ) → reads i ≡ true)
    → ((i : ℕ) → seq_of (find_chat chat (dbs i).chats) ≡ o)
    → has_subscriber chat h ≡ true
    → is_news o (head_of chat h.replay_heads) ≡ true
    → ((poll reads dbs h).subscribers ≡ h.subscribers) × AllNotified chat (poll reads dbs h)
unfolding poll prune
poll-wakes reads dbs h chat o works same live news =
    let chats = subscribed_chats h.subscribers in
    (
      poll_batches-subscribers dbs reads 0 (batches (length chats) 500 chats) (prune h),
      batches-wake dbs chat reads o 0 (batches (length chats) 500 chats) (prune h) works same
          (batches-has chat (length chats) 499 chats (omega arith)
            (subscribed_chats-has chat h.subscribers live))
          (rw (prune-head chat h h.replay_heads live) news),
    )
