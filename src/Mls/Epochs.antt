-- ===== src/Mls/Epochs.antt =====
-- A confirmed commit moves its chat to the next epoch.
use qgramm.Common.{
  ℕ, ap₂, if◌then◌else◌, none, not, ◌+◌, ◌≡◌, refl, sym, ap, ◌∙◌, String, Bool, true, false, ◌&&◌,
  List, [], ◌∷◌, ◌++◌, Option, some, some-injective, find, arith, map, delete_rows, str_eq, ltb,
  ◌==◌, ==_iff, Bool-cases, inl, inr, Outcome-cases, ok, require, row_or, >>=-eq-ok, row_or-eq-ok,
  require-eq-ok, append-nil, append_assoc,
}
use qgramm.Store.{
  Bytes, Db, Engine, Chat, find_chat, append, append-Appended, push_event, find_chat-bump_seq_self,
}
use qgramm.Mls.{
  Relay, Group, RosterRow, Transition, Suite, Hooks, RelayMember, ConfirmInput, Previous, at_epoch,
  referenced, applied, event_of, event_of-eq-some, find_group, find_roster, max_epoch, is_pending,
  open_transition, confirm_row, confirm_transition, confirm_epoch, check_confirm, save_roster,
  insert_roster, advance_epoch, same_bytes,
}

-- The rows of a roster.
abbrev pub roster_rows : String → List RelayMember → List RosterRow
roster_rows chat =
    map (λ m. record { chat_id = chat; device_id = m.device_id; leaf_index = m.leaf_index })

insert_roster-rows :
    (chat : String) (ms : List RelayMember) (rows : List RosterRow) {rows' : List RosterRow}
    → insert_roster chat ms rows ≡ some rows'
    → rows' ≡ rows ++ roster_rows chat ms
unfolding insert_roster
insert_roster-rows chat [] rows h = sym (some-injective _ _ h) ∙ sym (append-nil rows)
insert_roster-rows chat (m ∷ ms) rows {rows'} h =
    let row : RosterRow = record {
      chat_id = chat;
      device_id = m.device_id;
      leaf_index = m.leaf_index;
    } in
    let rest : insert_roster chat ms (rows ++ row ∷ []) ≡ some rows' = ground arith in
    insert_roster-rows chat ms (rows ++ row ∷ []) rest
    ∙ append_assoc rows (row ∷ []) (roster_rows chat ms)

save_roster-rows :
    (writes : Bool) (chat : String) (ms : List RelayMember) (rows : List RosterRow)
    {rows' : List RosterRow}
    → save_roster writes chat ms rows ≡ some rows'
    → rows' ≡ delete_rows (λ r. str_eq r.chat_id chat) rows ++ roster_rows chat ms
unfolding save_roster
save_roster-rows true chat ms rows h = insert_roster-rows chat ms _ h
save_roster-rows false chat ms rows h = cc

-- Confirming marks every transition of that id, and leaves the others as they are.
confirm_row-map :
    (k : String) (ts : List Transition)
    → confirm_row k ts ≡ map (λ t. if str_eq t.id k then record t { confirmed = true } else t) ts
unfolding confirm_row
confirm_row-map k [] = refl
confirm_row-map k (t ∷ ts) =
    let rest = confirm_row-map k ts in
    elim (Bool-cases (str_eq t.id k)) [
      | inr other ↦ rw other (ap (λ v. t ∷ v) rest)
      | inl named ↦ elim (Bool-cases t.confirmed) [
        | inr fresh ↦
            let chosen : (str_eq t.id k && not t.confirmed) ≡ true = rw (named, fresh) refl in
            rw (chosen, named) (ap (λ v. record t { confirmed = true } ∷ v) rest)
        | inl done ↦
            let passed : (str_eq t.id k && not t.confirmed) ≡ false = rw (named, done) refl in
            rw (passed, named) (ap₂ (λ b v. record t { confirmed = b } ∷ v) done rest)
      ]
    ]

find-closed :
    (k : String) (n : ℕ) (chat signer : String) (ts : List Transition)
    → find
        (is_pending k n chat signer)
        (map (λ t. if str_eq t.id k then record t { confirmed = true } else t) ts)
      ≡ none
find-closed k n chat signer [] = refl
find-closed k n chat signer (t ∷ ts) = ground (arith, find-closed k n chat signer ts)

-- A chat that waits at the previous epoch is found at the next one.
find_chat-advance_epoch :
    (chat : String) (n m : ℕ) (cs : List Chat) {c : Chat}
    → find_chat chat cs ≡ some c
    → c.epoch ≡ n
    → c.pending ≡ true
    → find_chat chat (advance_epoch chat n m cs) ≡ some (record c { epoch = m; pending = false })
unfolding find_chat advance_epoch
find_chat-advance_epoch chat n m [] h e p = cc
find_chat-advance_epoch chat n m (x ∷ xs) {c} h e p = elim (Bool-cases (str_eq x.id chat)) [
  | inl q ↦
      let same : x ≡ c = some-injective _ _ (rw q at h) in
      let move : Chat → Option Chat = λ v. some (record v { epoch = m; pending = false }) in
      let at_n : (x.epoch == n) ≡ true = (==_iff x.epoch n).1 (ap (λ v. v.epoch) same ∙ e) in
      let waits : x.pending ≡ true = ap (λ v. v.pending) same ∙ p in
      let chosen : (str_eq x.id chat && (x.epoch == n) && x.pending) ≡ true =
        rw (q, at_n, waits) refl in
      rw chosen (rw q (ap move same))
  | inr q ↦ rw q (rw q (find_chat-advance_epoch chat n m xs (rw q at h) e p))
]

pub find_chat-push_event :
    (db : Db) (chat : String) (seq : ℕ) (kind message : String) (body : Option Bytes) (now : ℕ)
    {c : Chat}
    → find_chat chat db.chats ≡ some c
    → find_chat chat (push_event db chat seq kind message body now).chats
      ≡ some (record c { seq = c.seq + 1 })
unfolding push_event
find_chat-push_event db chat seq kind message body now h = find_chat-bump_seq_self chat db.chats h

module _ (e : Engine) (s : Suite) (hooks : Hooks) (io : ℕ → Bool) (r : Relay) (chat : String)
    (input : ConfirmInput) (n : ℕ) where
  -- What the confirmation of a commit found, and what its writes are.
  pub record IsAdvance (r' : Relay) : Type 0 where
    pub group : Group
    pub chat_row : Chat
    pub named : find_group chat r.groups ≡ some group
    pub found : find_chat chat r.db.chats ≡ some chat_row
    pub waits : chat_row.pending ≡ true
    pub settled : chat_row.epoch ≡ n
    pub next : input.epoch ≡ n + 1
    pub transition : Transition
    pub listed :
        find (is_pending input.transition_id n chat input.signer_device) r.transitions
        ≡ some transition
    pub moved :
        find_chat chat r'.db.chats
        ≡ some (record chat_row { seq = chat_row.seq + 1; epoch = n + 1; pending = false })
    pub closed :
        r'.transitions
        ≡ map
            (λ t. if str_eq t.id input.transition_id then record t { confirmed = true } else t)
            r.transitions
    pub no_longer :
        find (is_pending input.transition_id n chat input.signer_device) r'.transitions ≡ none
    pub approved :
        r'.roster
        ≡ delete_rows (λ q. str_eq q.chat_id chat) r.roster ++ roster_rows chat input.roster

  open_transition-found :
      (group_id : Bytes) {v : String × Bytes}
      → open_transition e r chat group_id input n ≡ ok v
      → (g : Group) × (c : Chat) × (t : Transition) × (find_group chat r.groups ≡ some g)
        × (find_chat chat r.db.chats ≡ some c)
        × (c.pending ≡ true)
        × (c.epoch ≡ n)
        × (input.epoch ≡ n + 1)
        × (find (is_pending input.transition_id n chat input.signer_device) r.transitions ≡ some t)
  unfolding open_transition
  open_transition-found group_id h =
      let (_, h0, h1) =
        >>=-eq-ok
          (require (ltb n max_epoch && (input.epoch == n + 1)) 409 "epoch must advance by one") _
          h in
      let (g, hg, h2) =
        >>=-eq-ok (row_or (find_group chat r.groups) 409 "stale MLS confirmation") _ h1 in
      let (c, hc, h3) =
        >>=-eq-ok (row_or (find_chat chat r.db.chats) 409 "stale MLS confirmation") _ h2 in
      let (_, hs, h4) =
        >>=-eq-ok
          (require (c.pending && (c.epoch == n) && same_bytes g.group_id group_id) 409
            "stale MLS confirmation")
          _ h3 in
      let (_, _, h5) =
        >>=-eq-ok
          (row_or (find_roster chat input.signer_device r.roster) 403
            "existing MLS participant signer required")
          _ h4 in
      let (t, ht, h6) =
        >>=-eq-ok
          (row_or (find (is_pending input.transition_id n chat input.signer_device) r.transitions)
            409 "pending signed transition required")
          _ h5 in
      let waits = require-eq-ok _ _ _ hs in
      (
        g,
        c,
        t,
        row_or-eq-ok _ _ _ hg,
        row_or-eq-ok _ _ _ hc,
        ground (arith, waits),
        ground (arith, waits),
        ground (arith, require-eq-ok _ _ _ h0),
        row_or-eq-ok _ _ _ ht,
      )

  referenced-found :
      (p : Previous) (group_id : Bytes) (v : String × Bytes)
      → p ≡ at_epoch n
      → referenced e r chat group_id input p ≡ ok v
      → open_transition e r chat group_id input n ≡ ok v
  referenced-found p group_id v q h = rw q at h

  applied-confirmed :
      (init_io : ℕ → Bool) (group_id context wire : Bytes) (p : Previous) {r1 : Relay}
      → p ≡ at_epoch n
      → applied s hooks io init_io r chat group_id context input wire p ≡ ok r1
      → confirm_transition s hooks io r chat context input n wire ≡ ok r1
  applied-confirmed init_io group_id context wire p q h = rw q at h

  confirm_transition-writes :
      (context wire : Bytes) {r1 : Relay}
      → confirm_transition s hooks io r chat context input n wire ≡ ok r1
      → (r1.db ≡ record (r.db) { chats = advance_epoch chat n input.epoch r.db.chats })
        × (r1.transitions ≡ confirm_row input.transition_id r.transitions)
        × (save_roster (io 3) chat input.roster r.roster ≡ some r1.roster)
  unfolding confirm_transition
  confirm_transition-writes context wire h = ground arith

  check_confirm-referenced :
      (v : Bytes × Bytes × Bytes)
      → check_confirm e s io r chat input ≡ ok v
      → (w : String × Bytes) × (referenced e r chat v.0 input input.previous_epoch ≡ ok w)
  unfolding check_confirm
  check_confirm-referenced v h =
      elim (Outcome-cases (referenced e r chat v.0 input input.previous_epoch)) [
        | inl found ↦ found
        | inr (x, q) ↦ absurd (ground (arith, h, q))
      ]

  -- A confirmation of a commit that succeeds found the chat waiting at the epoch before, with an open
  -- transition of the signer for that epoch. Afterwards the chat is one epoch on and waits no more, its event
  -- has the next number, every transition of that id is marked confirmed, the others are as they were, the
  -- signer has none open under that id and epoch any more, and the chat's roster is the approved one, in its order.
  pub confirm-IsAdvance :
      (init_io : ℕ → Bool) (now : ℕ) {r' : Relay}
      → confirm_epoch e s hooks io init_io r chat input now ≡ ok r'
      → input.previous_epoch ≡ at_epoch n
      → IsAdvance r'
  unfolding confirm_epoch
  confirm-IsAdvance init_io now {r'} h q =
      let (v, h0, h1) = >>=-eq-ok (check_confirm e s io r chat input) _ h in
      let (w, ref) = check_confirm-referenced v h0 in
      let (g, c, t, hg, hc, waits, settled, next, listed) =
        open_transition-found v.0 (referenced-found input.previous_epoch v.0 w q ref) in
      let (r1, one, h2) =
        >>=-eq-ok (applied s hooks io init_io r chat v.0 v.1 input v.2 input.previous_epoch) _ h1 in
      let (db, closed, rows) =
        confirm_transition-writes v.1 v.2
          (applied-confirmed init_io v.0 v.1 v.2 input.previous_epoch q one) in
      let (r2, logged, h3) =
        >>=-eq-ok
          (row_or
            (event_of (
              append e (io 7) (io 8) r1.db chat "mls.epoch.confirmed" ""
                (some (s.encode_confirmed input.epoch input.transition_id input.roster)) now))
            500 "MLS event persistence failed")
          _ h2 in
      let a =
        append-Appended e (io 7) (io 8) r1.db chat "mls.epoch.confirmed" "" _ now r2.0 r2.1
          (event_of-eq-some _ (row_or-eq-ok _ _ _ logged)) in
      let at_next : ℕ → Option Chat =
        λ m. some (record c { seq = c.seq + 1; epoch = m; pending = false }) in
      let end : r' ≡ record r1 { db = r2.1 } = ground arith in
      let forward = find_chat-advance_epoch chat n input.epoch r.db.chats hc settled waits in
      let moved =
        find_chat-push_event r1.db chat r2.0 "mls.epoch.confirmed" "" a.stored now
          (ap (λ v. find_chat chat v.chats) db ∙ forward) in
      let ends =
        ap (λ v. v.transitions) end ∙ closed ∙ confirm_row-map input.transition_id r.transitions in
      record {
        group = g;
        chat_row = c;
        transition = t;
        named = hg;
        found = hc;
        waits = waits;
        settled = settled;
        next = next;
        listed = listed;
        moved =
            ap (λ v. find_chat chat v.db.chats) end
            ∙ ap (λ v. find_chat chat v.chats) a.pushed
            ∙ moved
            ∙ ap at_next next;
        closed = ends;
        no_longer =
            ap (find (is_pending input.transition_id n chat input.signer_device)) ends
            ∙ find-closed input.transition_id n chat input.signer_device r.transitions;
        approved = ap (λ v. v.roster) end ∙ save_roster-rows (io 3) chat input.roster r.roster rows;
      }
