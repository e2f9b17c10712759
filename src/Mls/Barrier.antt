-- ===== src/Mls/Barrier.antt =====
-- While a commit waits for its confirmation, nothing is sent under the old epoch.
use qgramm.Common.{
  ℕ, ◌+◌, ◌≡◌, refl, sym, ap, ◌∙◌, String, Bool, true, false, ok-injective, List, [], ◌∷◌, some,
  some-injective, map_option, find-update_rows, str_eq, Option-cases, Outcome-cases, ApiError, inl,
  inr, arith, ok, err, >>=-eq-ok, row_or-eq-ok,
}
use qgramm.Store.{Identity, Db, Engine, Chat, find_chat, append-Appended, storage, written}
use qgramm.Messages.{MessageInput}
use qgramm.Mls.{
  Relay, Suite, Hooks, Group, CommitInput, welcome_all, welcome_one, WelcomeInput, set_barrier,
  submit_commit, group_of, prepare_private, e2ee_prepare,
}
use qgramm.Mls.Epochs.{find_chat-push_event}
use qgramm.Mls.Effects.{submit-parts, insert-keeps, welcome_one-keeps}

-- The row that the query finds is the chat's.
group_of-chat :
    (r : Relay) (chat device : String) (c : Chat) (v : Group × Chat)
    → find_chat chat r.db.chats ≡ some c
    → group_of r chat device ≡ some v
    → v.1 ≡ c
unfolding group_of
group_of-chat r chat device c v found h = ground arith

-- A message that is prepared found its chat settled.
prepare_private-settled :
    (s : Suite) (reads : Bool) (r : Relay) (id : Identity) (chat : String) (input : MessageInput)
    {v : MessageInput}
    → prepare_private s reads r id chat input ≡ ok v
    → (g : Group × Chat) × (group_of r chat id.device_id ≡ some g) × (g.1.pending ≡ false)
unfolding prepare_private
prepare_private-settled s reads r id chat input h =
    elim (Option-cases (group_of r chat id.device_id)) [
      | inl missing ↦ absurd (ground (arith, h, missing))
      | inr (g, there) ↦ (g, there, ground (arith, h, there))
    ]

prepare-private :
    (s : Suite) (io : ℕ → Bool) (r : Relay) (id : Identity) (chat : String) (input : MessageInput)
    (c : Chat) {v : MessageInput}
    → find_chat chat r.db.chats ≡ some c
    → c.mode ≡ "e2ee"
    → e2ee_prepare s io r id chat input ≡ ok v
    → prepare_private s (io 1) r id chat input ≡ ok v
unfolding e2ee_prepare
prepare-private s io r id chat input c {v} found mode h =
    let (_, _, h1) = >>=-eq-ok (written (io 0)) _ h in
    let (d, hd, h2) = >>=-eq-ok (storage (find_chat chat r.db.chats)) _ h1 in
    let same : d ≡ c = some-injective _ _ (sym (row_or-eq-ok _ _ _ hd) ∙ found) in
    rw (ap (λ v. v.mode) same ∙ mode) at h2

waiting-refuses :
    (s : Suite) (io : ℕ → Bool) (r : Relay) (id : Identity) (chat : String) (input : MessageInput)
    (c : Chat)
    → find_chat chat r.db.chats ≡ some c
    → c.mode ≡ "e2ee"
    → c.pending ≡ true
    → (x : ApiError) × (e2ee_prepare s io r id chat input ≡ err x)
waiting-refuses s io r id chat input c found mode waits =
    elim (Outcome-cases (e2ee_prepare s io r id chat input)) [
      | inr failed ↦ failed
      | inl (v, q) ↦
          let (g, there, settled) =
            prepare_private-settled s (io 1) r id chat input
              (prepare-private s io r id chat input c found mode q) in
          let same = ap (λ z. z.pending) (group_of-chat r chat id.device_id c g found there) in
          absurd (ground (arith, same, settled, waits))
    ]

find_chat-set_barrier :
    (chat : String) (cs : List Chat) {c : Chat}
    → find_chat chat cs ≡ some c
    → find_chat chat (set_barrier chat cs) ≡ some (record c { pending = true })
unfolding find_chat set_barrier
find_chat-set_barrier chat cs h =
    find-update_rows (λ c. str_eq c.id chat) (λ c. record c { pending = true }) cs (λ c e. e)
    ∙ ap (map_option (λ c. record c { pending = true })) h

module _ (e : Engine) (s : Suite) (io : ℕ → Bool) (fresh : String → String) (chat : String)
    (now : ℕ) where
  welcome_all-db :
      (r : Relay) (epoch : ℕ) (targets : List String) (items : List WelcomeInput) {r' : Relay}
      → welcome_all e s io fresh chat now r epoch targets items ≡ ok r'
      → r'.db ≡ r.db
  unfolding welcome_all
  welcome_all-db r epoch targets [] h = ap (λ v. v.db) (sym (ok-injective _ _ h))
  welcome_all-db r epoch targets (item ∷ items) h =
      let (r1, h0, h1) = >>=-eq-ok (welcome_one e s io fresh chat now r epoch targets item) _ h in
      let (_, _, db) = welcome_one-keeps e s io fresh chat now r epoch targets item h0 in
      welcome_all-db r1 epoch (item.device_id ∷ targets) items h1 ∙ db

  submit-waits :
      (hooks : Hooks) (r : Relay) (id : Identity) (input : CommitInput) (transition : String)
      (c : Chat) {r' : Relay}
      → submit_commit e s hooks io fresh r id chat input transition now ≡ ok r'
      → find_chat chat r.db.chats ≡ some c
      → find_chat chat r'.db.chats ≡ some (record c { seq = c.seq + 1; pending = true })
  submit-waits hooks r id input transition c h found =
      let (t, r1, r2, n, i, w, _, _, body, seq, logged) =
        submit-parts e s io fresh chat now hooks r id input transition h in
      let same = welcome_all-db r1 n [] input.welcomes w ∙ (insert-keeps (io 2) t r i).1 in
      let barred =
        find_chat-set_barrier chat r2.db.chats (ap (λ v. find_chat chat v.chats) same ∙ found) in
      let db : Db = record (r2.db) { chats = set_barrier chat r2.db.chats } in
      let a =
        append-Appended e (io 6) (io 7) db chat "mls.commit.pending" "" body now seq _ logged in
      ap (λ v. find_chat chat v.chats) a.pushed
      ∙ find_chat-push_event db chat seq "mls.commit.pending" "" a.stored now barred

  -- After a commit was accepted for an end-to-end encrypted chat, no message of the chat is prepared, by whatever
  -- device and in whatever epoch, in the state that it left.
  pub submit-bars :
      (hooks : Hooks) (r : Relay) (id : Identity) (input : CommitInput) (transition : String)
      (c : Chat) {r' : Relay} (io' : ℕ → Bool) (sender : Identity) (message : MessageInput)
      → submit_commit e s hooks io fresh r id chat input transition now ≡ ok r'
      → find_chat chat r.db.chats ≡ some c
      → c.mode ≡ "e2ee"
      → (x : ApiError) × (e2ee_prepare s io' r' sender chat message ≡ err x)
  submit-bars hooks r id input transition c {r'} io' sender message h found mode =
      let after = submit-waits hooks r id input transition c h found in
      waiting-refuses s io' r' sender chat message (record c { seq = c.seq + 1; pending = true })
        after mode refl
