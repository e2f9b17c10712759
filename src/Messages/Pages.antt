-- ===== src/Messages/Pages.antt =====
-- The rows that a page of events reads, and the numbers of what is put out.
use qgramm.Common.{
  ℕ, ◌-◌, ◌≤◌, ◌<◌, ◌≡◌, sym, ap, ◌∙◌, String, true, ◌&&◌, ◌||◌, List, map, Option, none, some,
  arith, All, All-map, length, str_eq, eq_iff, ltb, leb, ◌==◌, if◌then◌else◌, Bool-cases, inl, inr,
  ok, >>=-eq-ok, ok-injective, traverse-map,
}
use qgramm.Store.{
  Bytes, Identity, Db, Engine, Chat, Seat, EventRow, IsJournal, IsBelow, head_seq, find_live_seat,
  find_message, page, IsDense, page-IsRun, IsRun-numbers, numbers_after, has_key-narrowed,
}
use qgramm.Messages.{
  Message, Reader, ProjectHook, Event, PageItem, in_chat_event, page_rows, page_items,
  project_items, output_events, read_page,
}
use qgramm.Messages.Replay.{
  seat_key, page_item, message_item, project_item, project_page_item, event_data, output_event,
}

abbrev pub row_seq : EventRow → ℕ
row_seq r = r.seq

abbrev pub smaller : ℕ → ℕ → ℕ
smaller a b = if ltb a b then a else b

-- How many events a page has, when the head was at `current` first and at `head` later.
pub record IsPageSize (limit current head cursor n : ℕ) : Type 0 where
  pub all_seen : smaller limit (current - cursor) ≤ n
  pub no_more : n ≤ smaller limit (head - cursor)

module _ (e : Engine) (x : Reader) (decode : Bytes → Option Bytes) (hooks : List ProjectHook)
    (id : Identity) (chat : String) where
  page_item-row :
      (db : Db) (c : Chat) (s : Option Seat) (r : EventRow) (i : PageItem)
      → page_item e x decode hooks id chat db c s r ≡ ok i
      → i.row.seq ≡ r.seq
  page_item-row db c none r i h = cc
  page_item-row db c (some s) r i h = elim (Bool-cases (str_eq r.message_id "")) [
    | inl q ↦ ap (λ v. v.row.seq) (sym (ok-injective _ i (rw q at h)))
    | inr q ↦
        let (m, _, h1) =
          >>=-eq-ok
            (message_item e x decode hooks id chat c s (find_message r.message_id db.messages)) _
            (rw q at h) in
        ap (λ v. v.row.seq) (sym (ok-injective _ i h1))
  ]

  project_items-seqs :
      (key : String) (is : List PageItem) {ms : List (EventRow × Option Message)}
      → project_items e x decode hooks id chat key is ≡ ok ms
      → map (λ m. m.0.seq) ms ≡ map (λ i. i.row.seq) is
  unfolding project_items
  project_items-seqs key is h =
      traverse-map (project_page_item e x decode hooks id chat key) (λ i. i.row.seq) (λ m. m.0.seq)
        (λ i m q.
          let (o, _, h1) = >>=-eq-ok (project_item e x decode hooks id chat key i.message) _ q in
          ap (λ v. v.0.seq) (sym (ok-injective _ m h1)))
        is h

  output_events-seqs :
      (ms : List (EventRow × Option Message)) {es : List Event}
      → output_events e x decode hooks id chat ms ≡ ok es
      → map (λ v. v.seq) es ≡ map (λ m. m.0.seq) ms
  unfolding output_events
  output_events-seqs ms h =
      traverse-map (output_event e x decode hooks id chat) (λ m. m.0.seq) (λ v. v.seq)
        (λ m v q.
          let (o, _, h1) = >>=-eq-ok (event_data e x decode hooks id chat m.0 m.1) _ q in
          ap (λ z. z.seq) (sym (ok-injective _ v h1)))
        ms h

  -- What is put out has the numbers of the rows that were read.
  pub read_page-seqs :
      (db : Db) (current after limit : ℕ) (o : Option Chat) (c : Chat) {es : List Event}
      → o ≡ some c
      → read_page e x decode hooks id chat db current after limit o ≡ ok es
      → map (λ v. v.seq) es
        ≡ map row_seq (page_rows e x decode hooks id chat db current after limit)
  unfolding read_page page_items project_items output_events
  read_page-seqs db current after limit none c q h = cc
  read_page-seqs db current after limit (some d) c q h =
      let rows = page_rows e x decode hooks id chat db current after limit in
      let (is, hi, h1) =
        >>=-eq-ok (page_items e x decode hooks id chat db d (find_live_seat db id chat) rows) _ h in
      let key = seat_key e x decode hooks id chat (find_live_seat db id chat) in
      let (ms, hm, h2) = >>=-eq-ok (project_items e x decode hooks id chat key is) _ h1 in
      output_events-seqs ms h2
      ∙ project_items-seqs key is hm
      ∙ traverse-map (page_item e x decode hooks id chat db d (find_live_seat db id chat)) row_seq
          (λ i. i.row.seq) (page_item-row db d (find_live_seat db id chat)) rows hi

  pub in_chat-below :
      (db : Db) (head : ℕ)
      → IsJournal db
      → head_seq chat db.chats ≡ head
      → All (λ r. in_chat_event chat r ≡ true → row_seq r ≤ head) db.events
  in_chat-below db head j h =
      All-map (IsBelow db.chats) (λ r. in_chat_event chat r ≡ true → row_seq r ≤ head) db.events
        (λ r below q. rw⁻¹ h (rw ((eq_iff r.chat_id chat).0 q) at below)) j

  -- Either query reads the next numbers: at least those up to the head first seen that the limit allows,
  -- and none above the head.
  pub page_rows-numbers :
      (db : Db) (current head after limit : ℕ)
      → IsDense row_seq (in_chat_event chat) after head db.events
      → All (λ r. in_chat_event chat r ≡ true → row_seq r ≤ head) db.events
      → after < current
      → current ≤ head
      → 1 ≤ limit
      → (n : ℕ) × IsPageSize limit current head after n
        × (map row_seq (page_rows e x decode hooks id chat db current after limit)
            ≡ numbers_after after n)
  page_rows-numbers db current head after limit dense below lt le pos =
      elim (Bool-cases ((current - after == 1) || (limit == 1))) [
        | inl q ↦
            let narrow = λ (r : EventRow). in_chat_event chat r && leb (row_seq r) current in
            let rows = page row_seq narrow 1 after db.events in
            let (run, count) =
              page-IsRun row_seq narrow 1 after current db.events
                (λ k m l.
                  has_key-narrowed row_seq (in_chat_event chat) current k db.events l
                    (dense k m (omega (arith, l, le))))
                (All-map (λ r. in_chat_event chat r ≡ true → row_seq r ≤ head)
                  (λ r. narrow r ≡ true → row_seq r ≤ current) db.events
                  (λ r b t. ground (arith, t)) below)
                (omega arith) in
            (
              length rows,
              record {
                all_seen = ground (arith, q, count);
                no_more = ground (arith, q, count, le, lt);
              },
              rw q (IsRun-numbers row_seq narrow after rows run),
            )
        | inr q ↦
            let rows = page row_seq (in_chat_event chat) limit after db.events in
            let (run, count) =
              page-IsRun row_seq (in_chat_event chat) limit after head db.events dense below
                (omega arith) in
            (
              length rows,
              record { all_seen = ground (arith, count, le); no_more = ground (arith, count) },
              rw q (IsRun-numbers row_seq (in_chat_event chat) after rows run),
            )
      ]
