-- ===== src/Realtime/Connections.antt =====
-- The places for connections are counted right, and never exceeded.
use qgramm.Common.{
  ℕ, ◌+◌, ◌≡◌, inl, inr, refl, ◌∙◌, String, Bool, true, false, not, ◌&&◌, List, [], ◌∷◌, map,
  any_row, update_rows, ◌==◌, Bool-cases, Option-cases, arith,
}
use qgramm.Store.{Db}
use qgramm.Realtime.{
  Connection, Hub, Head, mark, signal, notify, forget, subscribe, close, disconnect_user,
  disconnect_device, wake_chat, observe, observe_batch, durable_heads, poll_batches, prune, poll,
  unsubscribe_all,
}

-- The pointers of the connections.
unfoldable pub keys : List Connection → List ℕ
keys = map (λ c. c.key)

-- No pointer twice.
unfoldable pub is_distinct : List ℕ → Bool
is_distinct [] = true
is_distinct (k ∷ ks) = not (any_row (λ j. j == k) ks) && is_distinct ks

-- An update that keeps the pointers.
keys-update :
    (p : Connection → Bool) (f : Connection → Connection) (cs : List Connection)
    → ((c : Connection) → (f c).key ≡ c.key)
    → keys (update_rows p f cs) ≡ keys cs
unfolding keys
keys-update p f [] same = refl
keys-update p f (c ∷ cs) same = elim (Bool-cases (p c)) [
  | inl q ↦ rw (q, same c, keys-update p f cs same) refl
  | inr q ↦ rw (q, keys-update p f cs same) refl
]

-- The same connections, and the same number of places.
abbrev pub IsSame : Hub → Hub → Type 0
IsSame h h' = (keys h'.connections ≡ keys h.connections) × (h'.active ≡ h.active)

pub subscribe-IsSame :
    (h : Hub) (conn : ℕ) (chat : String) (enabled : Bool) → IsSame h (subscribe h conn chat enabled)
unfolding subscribe forget
subscribe-IsSame h conn chat true = ground arith
subscribe-IsSame h conn chat false = (keys-update _ _ h.connections (λ c. refl), refl)

pub disconnect_user-IsSame : (h : Hub) (user : String) → IsSame h (disconnect_user h user)
unfolding disconnect_user close
disconnect_user-IsSame h user = (keys-update _ _ h.connections (λ c. refl), refl)

pub disconnect_device-IsSame : (h : Hub) (device : String) → IsSame h (disconnect_device h device)
unfolding disconnect_device close
disconnect_device-IsSame h device = (keys-update _ _ h.connections (λ c. refl), refl)

pub wake_chat-IsSame : (chat : String) (h : Hub) → IsSame h (wake_chat chat h)
unfolding wake_chat notify signal mark
wake_chat-IsSame chat h = (keys-update _ _ h.connections (λ c. refl), refl)

observe-IsSame : (heads : List Head) (chat : String) (h : Hub) → IsSame h (observe heads chat h)
unfolding observe
observe-IsSame heads chat h = ground (arith, wake_chat-IsSame chat h)

batch-IsSame :
    (heads : List Head) (chats : List String) (h : Hub) → IsSame h (observe_batch heads chats h)
unfolding observe_batch
batch-IsSame heads [] h = (refl, refl)
batch-IsSame heads (chat ∷ chats) h =
    let one = observe-IsSame heads chat h in
    let rest = batch-IsSame heads chats (observe heads chat h) in (rest.0 ∙ one.0, rest.1 ∙ one.1)

batches-IsSame :
    (reads : ℕ → Bool) (dbs : ℕ → Db) (i : ℕ) (bs : List (List String)) (h : Hub)
    → IsSame h (poll_batches reads dbs i bs h)
unfolding poll_batches
batches-IsSame reads dbs i [] h = (refl, refl)
batches-IsSame reads dbs i (b ∷ bs) h = elim (Option-cases (durable_heads (reads i) (dbs i) b)) [
  | inl failed ↦ rw (failed, poll_batches) (batches-IsSame reads dbs (i + 1) bs h)
  | inr (heads, q) ↦
      let one = batch-IsSame heads b h in
      let rest = batches-IsSame reads dbs (i + 1) bs (observe_batch heads b h) in
      rw (q, poll_batches) (rest.0 ∙ one.0, rest.1 ∙ one.1)
]

pub poll-IsSame : (reads : ℕ → Bool) (dbs : ℕ → Db) (h : Hub) → IsSame h (poll reads dbs h)
unfolding poll prune
poll-IsSame reads dbs h = batches-IsSame reads dbs 0 _ _

pub unsubscribe_all-IsSame :
    (key : ℕ) (chats : List String) (h : Hub) → IsSame h (unsubscribe_all key chats h)
unfolding unsubscribe_all
unsubscribe_all-IsSame key [] h = (refl, refl)
unsubscribe_all-IsSame key (chat ∷ chats) h =
    let one = subscribe-IsSame h key chat false in
    let rest = unsubscribe_all-IsSame key chats (subscribe h key chat false) in
    (rest.0 ∙ one.0, rest.1 ∙ one.1)
