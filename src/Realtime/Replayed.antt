-- ===== src/Realtime/Replayed.antt =====
-- The shared poll finds what a notification missed.
use qgramm.Common.{
  ℕ, ◌≡◌, ◌⊎◌, inl, inr, refl, String, true, false, List, [], ◌∷◌, All, any_row, update_rows,
  str_eq, eq_refl, Bool-cases, arith,
}
use qgramm.Realtime.{
  Connection, Hub, Head, Subscription, insert_text, mark, signal, notify, is_subscribed, wake_chat,
  head_of, has_subscriber, is_news, observe,
}

-- A connection that will flush the chat: it is pending, and the wake channel is full.
abbrev pub IsNotified : String → Connection → Type 0
IsNotified chat c = (c.wake ≡ true) × (any_row (str_eq chat) c.pending ≡ true)

-- Every subscriber of the chat will flush it.
abbrev pub AllNotified : String → Hub → Type 0
AllNotified chat h =
    All (λ c. is_subscribed chat c.key h.subscribers ≡ true → IsNotified chat c) h.connections

insert_text-IsIn :
    (chat k : String) (xs : List String)
    → any_row (str_eq chat) xs ≡ true
    → any_row (str_eq chat) (insert_text k xs) ≡ true
unfolding insert_text
insert_text-IsIn chat k xs h = ground arith

notify-IsNotified : (chat : String) (c : Connection) → IsNotified chat (notify chat c)
unfolding notify mark signal insert_text
notify-IsNotified chat c = (refl, ground (arith, eq_refl chat))

notify-keeps : (chat k : String) (c : Connection) → IsNotified chat c → IsNotified chat (notify k c)
unfolding notify mark signal
notify-keeps chat k c (full, waits) = (refl, insert_text-IsIn chat k c.pending waits)

-- notify keeps the connection's identity.
wake-All :
    (k : String) (subs : List Subscription) (cs : List Connection)
    → All
        (λ c. is_subscribed k c.key subs ≡ true → IsNotified k c)
        (update_rows (λ c. is_subscribed k c.key subs) (notify k) cs)
unfolding notify signal mark
wake-All k subs [] = tt
wake-All k subs (c ∷ cs) = elim (Bool-cases (is_subscribed k c.key subs)) [
  | inl q ↦ (rw q (λ s. notify-IsNotified k c), wake-All k subs cs)
  | inr q ↦ (rw q (λ s. absurd (ground (arith, s, q))), wake-All k subs cs)
]

keep-All :
    (chat k : String) (subs : List Subscription) (cs : List Connection)
    → All (λ c. is_subscribed chat c.key subs ≡ true → IsNotified chat c) cs
    → All
        (λ c. is_subscribed chat c.key subs ≡ true → IsNotified chat c)
        (update_rows (λ c. is_subscribed k c.key subs) (notify k) cs)
unfolding notify signal mark
keep-All chat k subs [] a = tt
keep-All chat k subs (c ∷ cs) (first, others) = elim (Bool-cases (is_subscribed k c.key subs)) [
  | inl q ↦ (rw q (λ s. notify-keeps chat k c (first s)), keep-All chat k subs cs others)
  | inr q ↦ (rw q first, keep-All chat k subs cs others)
]

wake_chat-AllNotified : (k : String) (h : Hub) → AllNotified k (wake_chat k h)
unfolding wake_chat
wake_chat-AllNotified k h = wake-All k h.subscribers h.connections

wake_chat-keeps :
    (chat k : String) (h : Hub) → AllNotified chat h → AllNotified chat (wake_chat k h)
unfolding wake_chat
wake_chat-keeps chat k h a = keep-All chat k h.subscribers h.connections a

pub wake_chat-subscribers :
    (k : String) (h : Hub)
    → ((wake_chat k h).subscribers ≡ h.subscribers)
      × ((wake_chat k h).replay_heads ≡ h.replay_heads)
unfolding wake_chat
wake_chat-subscribers k h = (refl, refl)

pub observe-subscribers :
    (heads : List Head) (k : String) (h : Hub) → (observe heads k h).subscribers ≡ h.subscribers
unfolding observe
observe-subscribers heads k h = ground (arith, wake_chat-subscribers k h)

observe-connections :
    (heads : List Head) (k : String) (h : Hub)
    → ((observe heads k h).connections ≡ h.connections)
      ⊎ ((observe heads k h).connections ≡ (wake_chat k h).connections)
unfolding observe
observe-connections heads k h = ground arith

pub observe-keeps :
    (heads : List Head) (chat k : String) (h : Hub)
    → AllNotified chat h
    → AllNotified chat (observe heads k h)
observe-keeps heads chat k h a =
    let woken : AllNotified chat (wake_chat k h) = wake_chat-keeps chat k h a in
    elim (observe-connections heads k h) [
      | inl same ↦ rw (observe-subscribers heads k h, same) a
      | inr more ↦
          rw (observe-subscribers heads k h, more) (rw (wake_chat-subscribers k h).0 at woken)
    ]

is_subscribed-has_subscriber :
    (chat : String) (key : ℕ) (subs : List Subscription)
    → is_subscribed chat key subs ≡ true
    → any_row (λ s. str_eq s.chat chat) subs ≡ true
unfolding is_subscribed
is_subscribed-has_subscriber chat key [] h = h
is_subscribed-has_subscriber chat key (s ∷ ss) h =
    ground (arith, is_subscribed-has_subscriber chat key ss)

alone :
    (chat : String) (subs : List Subscription) (cs : List Connection)
    → any_row (λ s. str_eq s.chat chat) subs ≡ false
    → All (λ c. is_subscribed chat c.key subs ≡ true → IsNotified chat c) cs
alone chat subs [] q = tt
alone chat subs (c ∷ cs) q = (
  (λ s. absurd (ground (arith, q, is_subscribed-has_subscriber chat c.key subs s))),
  alone chat subs cs q,
)

-- News of a chat reach all of its subscribers.
pub observe-wakes :
    (heads : List Head) (chat : String) (h : Hub)
    → is_news (head_of chat heads) (head_of chat h.replay_heads) ≡ true
    → AllNotified chat (observe heads chat h)
unfolding observe
observe-wakes heads chat h news = elim (Bool-cases (has_subscriber chat h)) [
  | inl q ↦
      let there : (observe heads chat h).connections ≡ (wake_chat chat h).connections =
        ground (arith, q, news) in
      let woken : AllNotified chat (wake_chat chat h) = wake_chat-AllNotified chat h in
      rw (observe-subscribers heads chat h, there) (rw (wake_chat-subscribers chat h).0 at woken)
  | inr q ↦ rw (observe-subscribers heads chat h) (alone chat h.subscribers _ q)
]
