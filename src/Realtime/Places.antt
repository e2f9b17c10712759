-- ===== src/Realtime/Places.antt =====
-- The places for connections are counted right, and never exceeded.
use qgramm.Common.{
  ℕ, suc, ◌+◌, ◌≤◌, ◌≡◌, refl, sym, ap, ◌∙◌, String, Bool, true, false, not, ◌||◌, List, [], ◌∷◌,
  ◌++◌, any_row, delete_rows, length, length-append, ◌==◌, arith, ok, require, leb, >>=-eq-ok,
  require-eq-ok, ok-injective,
}
use qgramm.Store.{Identity, Db}
use qgramm.Realtime.{
  Connection, Hub, subscribe, disconnect_user, disconnect_device, wake_chat, poll, take_place,
  give_back, register, leave,
}
use qgramm.Realtime.Connections.{
  keys, is_distinct, IsSame, subscribe-IsSame, disconnect_user-IsSame, disconnect_device-IsSame,
  wake_chat-IsSame, poll-IsSame, unsubscribe_all-IsSame,
}

-- The hub, and the connections that have a place and are not upgraded yet.
pub record Lobby : Type 0 where
  pub hub : Hub
  pub upgrading : ℕ

-- What happens to the connections; a registered connection has a pointer of its own, and one that leaves
-- was registered.
pub data Change (max : ℕ) : Lobby → Lobby → Type 0 where
  admitted :
      (l : Lobby) (h : Hub)
      → take_place max l.hub ≡ ok h
      → Change max l (record { hub = h; upgrading = suc l.upgrading })
  failed :
      (l : Lobby) (n : ℕ)
      → l.upgrading ≡ suc n
      → Change max l (record { hub = give_back l.hub; upgrading = n })
  opened :
      (l : Lobby) (n key : ℕ) (id : Identity)
      → l.upgrading ≡ suc n
      → any_row (λ j. j == key) (keys l.hub.connections) ≡ false
      → Change max l (record { hub = register key id l.hub; upgrading = n })
  left :
      (l : Lobby) (key : ℕ) (chats : List String)
      → any_row (λ j. j == key) (keys l.hub.connections) ≡ true
      → Change max l (record l { hub = leave key chats l.hub })
  subscribed :
      (l : Lobby) (conn : ℕ) (chat : String) (enabled : Bool)
      → Change max l (record l { hub = subscribe l.hub conn chat enabled })
  woken : (l : Lobby) (chat : String) → Change max l (record l { hub = wake_chat chat l.hub })
  polled :
      (l : Lobby) (reads : ℕ → Bool) (dbs : ℕ → Db)
      → Change max l (record l { hub = poll reads dbs l.hub })
  user_gone :
      (l : Lobby) (user : String) → Change max l (record l { hub = disconnect_user l.hub user })
  device_gone :
      (l : Lobby) (device : String)
      → Change max l (record l { hub = disconnect_device l.hub device })

pub data Changes (max : ℕ) : Lobby → Lobby → Type 0 where
  rests : (l : Lobby) → Changes max l l
  goes_on : (k l m : Lobby) → Changes max k l → Change max l m → Changes max k m

-- The count is that of the connections and of those that are being upgraded, each pointer once, and within
-- the limit.
pub record IsCounted (max : ℕ) (l : Lobby) : Type 0 where
  pub counted : l.hub.active ≡ l.upgrading + length (keys l.hub.connections)
  pub distinct : is_distinct (keys l.hub.connections) ≡ true
  pub within : l.hub.active ≤ max

same-IsCounted :
    (max : ℕ) (l : Lobby) (h : Hub)
    → IsSame l.hub h
    → IsCounted max l
    → IsCounted max (record l { hub = h })
same-IsCounted max l h (ks, n) c = record {
  counted = n ∙ c.counted ∙ ap (λ v. l.upgrading + length v) (sym ks);
  distinct = rw ks c.distinct;
  within = rw n c.within;
}

any_row-append :
    (k : ℕ) (ks : List ℕ) (key : ℕ)
    → any_row (λ j. j == k) (ks ++ key ∷ []) ≡ (any_row (λ j. j == k) ks || (key == k))
any_row-append k [] key = ground arith
any_row-append k (j ∷ js) key = ground (arith, any_row-append k js key)

distinct-append :
    (ks : List ℕ) (key : ℕ)
    → is_distinct ks ≡ true
    → any_row (λ j. j == key) ks ≡ false
    → is_distinct (ks ++ key ∷ []) ≡ true
unfolding is_distinct
distinct-append [] key d fresh = refl
distinct-append (k ∷ ks) key d fresh =
    ground (arith, distinct-append ks key, any_row-append k ks key)

abbrev without : ℕ → List ℕ → List ℕ
without key = delete_rows (λ j. j == key)

without-fresh : (key : ℕ) (ks : List ℕ) → any_row (λ j. j == key) ks ≡ false → without key ks ≡ ks
without-fresh key [] h = refl
without-fresh key (k ∷ ks) h = ground (arith, h, without-fresh key ks)

without-length :
    (key : ℕ) (ks : List ℕ)
    → is_distinct ks ≡ true
    → any_row (λ j. j == key) ks ≡ true
    → length ks ≡ suc (length (without key ks))
unfolding is_distinct
without-length key [] d has = cc
without-length key (k ∷ ks) d has =
    ground (arith, d, has, without-length key ks, without-fresh key ks)

any_row-without :
    (key k : ℕ) (ks : List ℕ)
    → any_row (λ j. j == k) ks ≡ false
    → any_row (λ j. j == k) (without key ks) ≡ false
any_row-without key k [] h = refl
any_row-without key k (j ∷ js) h = ground (arith, h, any_row-without key k js)

without-distinct :
    (key : ℕ) (ks : List ℕ) → is_distinct ks ≡ true → is_distinct (without key ks) ≡ true
unfolding is_distinct
without-distinct key [] d = refl
without-distinct key (k ∷ ks) d =
    ground (arith, d, without-distinct key ks, any_row-without key k ks)

keys-delete :
    (key : ℕ) (cs : List Connection)
    → keys (delete_rows (λ c. c.key == key) cs) ≡ without key (keys cs)
unfolding keys
keys-delete key [] = refl
keys-delete key (c ∷ cs) = ground (arith, keys-delete key cs)

keys-append : (cs : List Connection) (c : Connection) → keys (cs ++ c ∷ []) ≡ keys cs ++ c.key ∷ []
unfolding keys
keys-append [] c = refl
keys-append (x ∷ cs) c = ap (λ v. x.key ∷ v) (keys-append cs c)

left-IsCounted :
    (max : ℕ) (l : Lobby) (key : ℕ) (chats : List String)
    → any_row (λ j. j == key) (keys l.hub.connections) ≡ true
    → IsCounted max l
    → IsCounted max (record l { hub = leave key chats l.hub })
unfolding leave give_back
left-IsCounted max l key chats there c =
    let (ks, n) = unsubscribe_all-IsSame key chats l.hub in
    let after : keys (leave key chats l.hub).connections ≡ without key (keys l.hub.connections) =
      keys-delete key _ ∙ ap (without key) ks in
    let one = without-length key (keys l.hub.connections) c.distinct there in
    record {
      counted = omega (arith, n, c.counted, one, ap length after);
      distinct = rw after (without-distinct key (keys l.hub.connections) c.distinct);
      within = omega (arith, n, c.within);
    }

opened-IsCounted :
    (max : ℕ) (l : Lobby) (n key : ℕ) (id : Identity)
    → l.upgrading ≡ suc n
    → any_row (λ j. j == key) (keys l.hub.connections) ≡ false
    → IsCounted max l
    → IsCounted max (record { hub = register key id l.hub; upgrading = n })
unfolding register
opened-IsCounted max l n key id some_left fresh c =
    let new : Connection = record {
      key = key;
      id = id;
      wake = false;
      pending = [];
      is_done = false;
    } in
    let after : keys (l.hub.connections ++ new ∷ []) ≡ keys l.hub.connections ++ key ∷ [] =
      keys-append l.hub.connections new in
    record {
      counted = omega (
        arith,
        c.counted,
        some_left,
        ap length after,
        length-append (keys l.hub.connections) (key ∷ []),
      );
      distinct = rw after (distinct-append (keys l.hub.connections) key c.distinct fresh);
      within = c.within;
    }

admitted-IsCounted :
    (max : ℕ) (l : Lobby) (h : Hub)
    → take_place max l.hub ≡ ok h
    → IsCounted max l
    → IsCounted max (record { hub = h; upgrading = suc l.upgrading })
unfolding take_place
admitted-IsCounted max l h q c =
    let (_, free, h1) =
      >>=-eq-ok (require (not (leb max l.hub.active)) 503 "connection capacity reached") _ q in
    let same : record (l.hub) { active = l.hub.active + 1 } ≡ h = ok-injective _ _ h1 in
    let room = require-eq-ok _ _ _ free in
    rw⁻¹ same (record {
      counted = omega (arith, c.counted);
      distinct = c.distinct;
      within = ground (arith, room);
    })

failed-IsCounted :
    (max : ℕ) (l : Lobby) (n : ℕ)
    → l.upgrading ≡ suc n
    → IsCounted max l
    → IsCounted max (record { hub = give_back l.hub; upgrading = n })
unfolding give_back
failed-IsCounted max l n some_left c = record {
  counted = omega (arith, c.counted, some_left);
  distinct = c.distinct;
  within = omega (arith, c.within);
}

Change-IsCounted : (max : ℕ) (l m : Lobby) → Change max l m → IsCounted max l → IsCounted max m
Change-IsCounted max l m (admitted _ h q) c = admitted-IsCounted max l h q c
Change-IsCounted max l m (failed _ n q) c = failed-IsCounted max l n q c
Change-IsCounted max l m (opened _ n key id q fresh) c = opened-IsCounted max l n key id q fresh c
Change-IsCounted max l m (left _ key chats there) c = left-IsCounted max l key chats there c
Change-IsCounted max l m (subscribed _ conn chat enabled) c =
    same-IsCounted max l _ (subscribe-IsSame l.hub conn chat enabled) c
Change-IsCounted max l m (woken _ chat) c = same-IsCounted max l _ (wake_chat-IsSame chat l.hub) c
Change-IsCounted max l m (polled _ reads dbs) c =
    same-IsCounted max l _ (poll-IsSame reads dbs l.hub) c
Change-IsCounted max l m (user_gone _ user) c =
    same-IsCounted max l _ (disconnect_user-IsSame l.hub user) c
Change-IsCounted max l m (device_gone _ device) c =
    same-IsCounted max l _ (disconnect_device-IsSame l.hub device) c

-- In whatever order connections are admitted, fail to upgrade, open, subscribe, are woken, are told to
-- close and leave, the number of taken places is that of the registered connections and those being upgraded,
-- no connection is registered twice, and no more places are taken than the configured limit.
pub Changes-IsCounted :
    (max : ℕ) (l m : Lobby) → Changes max l m → IsCounted max l → IsCounted max m
Changes-IsCounted max l m (rests _) c = c
Changes-IsCounted max l m (goes_on _ k _ past change) c =
    Change-IsCounted max k m change (Changes-IsCounted max l k past c)
