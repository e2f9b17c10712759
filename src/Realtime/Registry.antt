-- ===== src/Realtime/Registry.antt =====
-- The connections and subscribers of a Core, and the shared poll of the journal's heads.
use qgramm.Common.{
  ℕ, ◌+◌, zero, suc, String, Bool, true, false, not, ◌&&◌, List, [], ◌∷◌, ◌++◌, Option, none, some,
  any_row, take, drop, delete_rows, update_rows, length, str_eq, ◌==◌, if◌then◌else◌,
}
use qgramm.Store.{Db, find_chat}
use qgramm.Realtime.Notify.{Connection, insert_text, notify, forget}

-- A connection in the set of a chat's subscribers.
pub record Subscription : Type 0 where
  pub chat : String
  pub conn : ℕ

pub record Head : Type 0 where
  pub chat : String
  pub seq : ℕ

pub record Hub : Type 0 where
  pub connections : List Connection
  pub subscribers : List Subscription
  pub active : ℕ
  pub replay_heads : List Head

unfoldable pub is_subscribed : String → ℕ → List Subscription → Bool
is_subscribed chat conn = any_row (λ s. str_eq s.chat chat && (s.conn == conn))

unfoldable pub subscribe : Hub → ℕ → String → Bool → Hub
unfolding is_subscribed forget
subscribe h conn chat true =
    if is_subscribed chat conn h.subscribers
    then h
    else record h { subscribers = h.subscribers ++ record { chat = chat; conn = conn } ∷ [] }
subscribe h conn chat false = record h {
  subscribers = delete_rows (λ s. str_eq s.chat chat && (s.conn == conn)) h.subscribers;
  connections = update_rows (λ c. c.key == conn) (forget chat) h.connections;
}

unfoldable pub close : Connection → Connection
close c = record c { is_done = true }

unfoldable pub disconnect_user : Hub → String → Hub
unfolding close
disconnect_user h user = record h {
  connections = update_rows (λ c. str_eq c.id.user_id user) close h.connections;
}

unfoldable pub disconnect_device : Hub → String → Hub
unfolding close
disconnect_device h device = record h {
  connections = update_rows (λ c. str_eq c.id.device_id device) close h.connections;
}

-- Core.Wake
unfoldable pub wake_chat : String → Hub → Hub
unfolding is_subscribed notify
wake_chat chat h = record h {
  connections =
      update_rows (λ c. is_subscribed chat c.key h.subscribers) (notify chat) h.connections;
}

unfoldable pub head_of : String → List Head → Option ℕ
head_of chat [] = none
head_of chat (x ∷ xs) = if str_eq x.chat chat then some x.seq else head_of chat xs

unfoldable pub set_head : String → ℕ → List Head → List Head
set_head chat n xs = record { chat = chat; seq = n } ∷ delete_rows (λ x. str_eq x.chat chat) xs

abbrev pub has_subscriber : String → Hub → Bool
has_subscriber chat h = any_row (λ s. str_eq s.chat chat) h.subscribers

-- The heads of chats without subscribers are dropped.
unfoldable pub prune : Hub → Hub
prune h = record h {
  replay_heads = delete_rows (λ x. not (has_subscriber x.chat h)) h.replay_heads;
}

-- The head is missing, not seen before, or another one.
abbrev pub is_news : Option ℕ → Option ℕ → Bool
is_news none known = true
is_news (some n) none = true
is_news (some n) (some m) = not (n == m)

abbrev pub observed : String → Option ℕ → Hub → Hub
observed chat none h = h
observed chat (some n) h = record h { replay_heads = set_head chat n h.replay_heads }

-- One chat of a batch, whose heads were read.
unfoldable pub observe : List Head → String → Hub → Hub
unfolding head_of set_head wake_chat
observe heads chat h =
    let woken = observed chat (head_of chat heads) (wake_chat chat h) in
    let seen = observed chat (head_of chat heads) h in
    if has_subscriber chat h
    then (if is_news (head_of chat heads) (head_of chat h.replay_heads) then woken else seen)
    else record h { replay_heads = delete_rows (λ x. str_eq x.chat chat) h.replay_heads }

unfoldable pub observe_batch : List Head → List String → Hub → Hub
unfolding observe
observe_batch heads [] h = h
observe_batch heads (chat ∷ chats) h = observe_batch heads chats (observe heads chat h)

-- SELECT id,seq FROM chats WHERE id IN (...)
unfoldable pub durable_heads : Bool → Db → List String → Option (List Head)
durable_heads true db [] = some []
durable_heads true db (k ∷ ks) = elim (durable_heads true db ks) [
  | none ↦ none
  | some heads ↦ elim (find_chat k db.chats) [
    | none ↦ some heads
    | some c ↦ some (record { chat = c.id; seq = c.seq } ∷ heads)
  ]
]
durable_heads false db ks = none

-- The batches of at most `size` chats; `fuel` bounds their number.
unfoldable pub batches : ℕ → ℕ → List String → List (List String)
batches zero size xs = []
batches (suc fuel) size [] = []
batches (suc fuel) size (x ∷ xs) =
    let rest = batches fuel size (drop size (x ∷ xs)) in take size (x ∷ xs) ∷ rest

unfoldable pub poll_batches : (ℕ → Bool) → (ℕ → Db) → ℕ → List (List String) → Hub → Hub
unfolding durable_heads observe_batch
poll_batches reads dbs i [] h = h
poll_batches reads dbs i (b ∷ bs) h = elim (durable_heads (reads i) (dbs i) b) [
  | none ↦ poll_batches reads dbs (i + 1) bs h
  | some heads ↦ poll_batches reads dbs (i + 1) bs (observe_batch heads b h)
]

-- The chats that have subscribers.
unfoldable pub subscribed_chats : List Subscription → List String
unfolding insert_text
subscribed_chats [] = []
subscribed_chats (s ∷ ss) = insert_text s.chat (subscribed_chats ss)

-- pollReplayHeads; `dbs` is what each batch's query reads.
unfoldable pub poll : (ℕ → Bool) → (ℕ → Db) → Hub → Hub
unfolding prune subscribed_chats batches poll_batches
poll reads dbs h =
    let chats = subscribed_chats h.subscribers in
    poll_batches reads dbs 0 (batches (length chats) 500 chats) (prune h)
