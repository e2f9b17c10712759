-- ===== src/Messages/RoundTrip.antt =====
-- A message that was accepted is read back whole.
use qgramm.Common.{
  ℕ, ◌+◌, ◌≤◌, ◌≡◌, refl, sym, ap, ◌∙◌, String, Bool, true, false, ◌||◌, List, [], ◌∷◌, ◌++◌, none,
  some, arith, any_row, select, find, str_eq, eq_refl, All, subst, Bool-cases, inl, inr, Outcome,
  ok, err,
}
use qgramm.Store.{
  Bytes, Identity, Db, Engine, message_aad, Chat, Seat, StoredMessage, find_chat, find_live_seat,
  find_message, push_event, find_chat-bump_seq_self,
}
use qgramm.Messages.{
  Message, MessageMetadata, Codec, Draft, Hook, Reader, ProjectHook, Item, item_of, new_message,
  message_row, insert_message, persist_message, run_project, deliver, reveal, project_one,
  project_stored, readable, readable_rows, unique, project_messages, view_message,
}
use qgramm.Messages.Access.{persist-IsAccepted}
use qgramm.Messages.Idempotency.{settle-IsFresh, IsFresh-IsNext}

-- A row at the end, where no earlier row passes the test.
select-last :
    {A : Type 0} (p q : A → Bool) (xs : List A) (y : A)
    → ((x : A) → q x ≡ p x)
    → find p xs ≡ none
    → p y ≡ true
    → select q (xs ++ y ∷ []) ≡ y ∷ []
select-last p q [] y same h e = rw (same y, e) refl
select-last p q (x ∷ xs) y same h e = elim (Bool-cases (p x)) [
  | inl f ↦ absurd (ground (arith, f, h))
  | inr f ↦ rw (same x, f) (select-last p q xs y same (rw f at h) e)
]

or_false : (b : Bool) → (b || false) ≡ b
or_false true = refl
or_false false = refl

abbrev pub metadata_of : Draft → MessageMetadata
metadata_of d = record {
  attachments = d.input.attachments;
  forward_from = d.input.forward_from;
  reply_to = d.input.reply_to;
}

-- What a reader is shown of a message: the message itself, with the plaintext sealed for the reader's key in
-- a basic chat, or encoded in a chat that runs MLS.
pub data IsShown (x : Reader) (reader : Identity) (key : String) (plain : Bytes) (m : Message)
    : Message → Type 0 where
  enveloped :
      {recipient env : Bytes}
      → str_eq m.mode "basic" ≡ true
      → x.parse_recipient key ≡ some recipient
      → x.seal_for recipient plain m.chat_id reader m.id ≡ some env
      → IsShown x reader key plain m (record m { envelope = some env })
  encoded :
      str_eq m.mode "basic" ≡ false
      → IsShown x reader key plain m (record m { mls = x.encode_base64 plain })

-- Projection hooks that pass a message on as it is.
run_project-same :
    (hooks : List ProjectHook) (reader : Identity) (m : Message)
    → All (λ hook. hook reader m ≡ ok m) hooks
    → run_project hooks reader m ≡ ok m
unfolding run_project
run_project-same [] reader m h = refl
run_project-same (hook ∷ hooks) reader m h = rw (h.0) (run_project-same hooks reader m h.1)

module _ (e : Engine) (x : Reader) (hooks : List ProjectHook) (id : Identity) where
  deliver-shown :
      (key : String) (plain : Bytes) (m : Message) {shown : Message}
      → IsShown x id key plain m shown
      → deliver e x hooks id key m plain ≡ ok shown
  unfolding deliver
  deliver-shown key plain m (enveloped basic parsed sealed) = rw (basic, parsed, sealed) refl
  deliver-shown key plain m (encoded other) = rw other refl

  -- The projection of the row that a draft became.
  project_one-new :
      (key : String) (d : Draft) (seq now : ℕ) (c : Chat) (plain : Bytes)
      → c.mode ≡ d.mode
      → x.decode_metadata d.metadata ≡ some (metadata_of d)
      → e.open_sealed d.stored (message_aad d.message_id) ≡ some plain
      → All (λ hook. hook id (new_message d seq now) ≡ ok (new_message d seq now)) hooks
      → project_one e x hooks id key (item_of (message_row d seq now) c)
        ≡ deliver e x hooks id key (new_message d seq now) plain
  unfolding project_one reveal item_of message_row new_message
  project_one-new key d seq now c plain mode meta opens same =
      rw (meta, mode, run_project-same hooks id (new_message d seq now) same, opens) refl

  view-single :
      (db : Db) (row : StoredMessage) (i : Item) (key : String) (o : Outcome Message)
      → select (λ r. any_row (str_eq r.id) (row.id ∷ [])) db.messages ≡ row ∷ []
      → readable e x hooks id db row ≡ some (i, key)
      → project_one e x hooks id key i ≡ o
      → view_message e x hooks id true db row.id ≡ o
  unfolding view_message project_messages readable_rows unique project_stored
  view-single db row i key (ok m) one reads p = rw (one, reads, p) refl
  view-single db row i key (err z) one reads p = rw (one, reads, p) refl

  readable-new :
      (db : Db) (d : Draft) (seq now : ℕ) (c : Chat) (s : Seat)
      → find_chat d.chat db.chats ≡ some c
      → find_live_seat db id d.chat ≡ some s
      → s.member.joined_seq ≤ seq
      → readable e x hooks id db (message_row d seq now)
        ≡ some (item_of (message_row d seq now) c, s.device.public_key)
  unfolding readable message_row
  readable-new db d seq now c s found seated old =
      rw (found, seated, readable) (ground (arith, old))

-- An accepted message, read in the state that it left by anyone with a live device and a membership
-- that began no later, is that very message, with the plaintext that was sealed: in an envelope for the
-- reader's key in a basic chat, encoded in a chat that runs MLS. The chat has the mode that the draft was
-- prepared in, the stored metadata decodes, the seal opens to the plaintext, the plaintext can be shown to
-- the reader, and the projection hooks pass the message on as it is.
pub persist-view :
    (e : Engine) (k : Codec) (x : Reader) (hooks : List Hook) (io : ℕ → Bool) (db : Db) (d : Draft)
    (now : ℕ) (projections : List ProjectHook) (reader : Identity) (plain : Bytes) {db' : Db}
    {m shown : Message} {s : Seat} {c : Chat}
    → persist_message e k hooks io db d now ≡ ok (db', m, false)
    → find_chat d.chat db.chats ≡ some c
    → c.mode ≡ d.mode
    → x.decode_metadata d.metadata ≡ some (metadata_of d)
    → e.open_sealed d.stored (message_aad d.message_id) ≡ some plain
    → find_live_seat db' reader d.chat ≡ some s
    → s.member.joined_seq ≤ m.seq
    → All (λ hook. hook reader m ≡ ok m) projections
    → IsShown x reader s.device.public_key plain m shown
    → view_message e x projections reader true db' m.id ≡ ok shown
unfolding insert_message push_event find_message
persist-view e k x hooks io db d now projections reader plain {db'} {m} {shown} {s} {c} h found mode
      meta opens seated old same shows =
    let (acc, st) = persist-IsAccepted e k hooks io db d now h in
    let (missing, f) = settle-IsFresh e k hooks io db d now _ st in
    let n = IsFresh-IsNext e k hooks io db d now f in
    let row = message_row d m.seq now in
    let c' : Chat = record c { seq = c.seq + 1 } in
    let chats : find_chat d.chat db'.chats ≡ some c' =
      ap (λ v. find_chat d.chat v.chats) n.shape ∙ find_chat-bump_seq_self d.chat db.chats found in
    let last =
      select-last (λ r. str_eq r.id d.message_id) (λ r. any_row (str_eq r.id) (d.message_id ∷ []))
        db.messages row (λ r. or_false (str_eq r.id d.message_id)) f.unused
        (eq_refl d.message_id) in
    let one : select (λ r. any_row (str_eq r.id) (d.message_id ∷ [])) db'.messages ≡ row ∷ [] =
      ap (λ v. select (λ r. any_row (str_eq r.id) (d.message_id ∷ [])) v.messages) n.shape ∙ last in
    let view =
      view-single e x projections reader db' row (item_of row c') s.device.public_key _ one
        (readable-new e x projections reader db' d m.seq now c' s chats seated old)
        (project_one-new e x projections reader s.device.public_key d m.seq now c' plain mode meta
          opens (subst (λ v. All (λ hook. hook reader v ≡ ok v) projections) n.message same)) in
    let id : m.id ≡ d.message_id = ap (λ v. v.id) n.message in
    ap (λ v. view_message e x projections reader true db' v) id
    ∙ view
    ∙ ap (λ v. deliver e x projections reader s.device.public_key v plain) (sym n.message)
    ∙ deliver-shown e x projections reader s.device.public_key plain m shows
