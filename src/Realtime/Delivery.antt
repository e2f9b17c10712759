-- ===== src/Realtime/Delivery.antt =====
-- A connection's flush sends the chat's events in order, each once.
use qgramm.Common.{
  ℕ, zero, suc, ◌+◌, ◌*◌, ◌≤◌, ◌<◌, ◌≡◌, inl, inr, refl, sym, ap, ap₂, ◌∙◌, String, Bool, true,
  false, List, [], ◌∷◌, ◌++◌, map, Option, some, length, ltb, Bool-cases, Outcome-cases, Outcome,
  ok, arith, subst,
}
use qgramm.Store.{
  Bytes, Identity, Db, Engine, Chat, Seat, IsJournal, find_chat, find_live_seat, numbers_after,
  head_seq, head_seq-found,
}
use qgramm.Messages.{Event, Reader, ProjectHook, events, raised}
use qgramm.Messages.Contiguous.{IsGapless, IsLater, events-contiguous}
use qgramm.Messages.Pages.{IsPageSize}
use qgramm.Realtime.{caught_up, again, Flushed, write_events, last_seq, flush_pages}

abbrev seqs : List Event → List ℕ
seqs = map (λ v. v.seq)

numbers_after-append :
    (c n m : ℕ) → numbers_after c n ++ numbers_after (c + n) m ≡ numbers_after c (n + m)
numbers_after-append c zero m =
    let here : c + 0 ≡ c = omega arith in
    let none_more : 0 + m ≡ m = omega arith in rw (here, none_more) refl
numbers_after-append c (suc n) m =
    let next : c + suc n ≡ suc c + n = omega arith in
    let more : suc n + m ≡ suc (n + m) = omega arith in
    rw (next, more) (ap (λ v. suc c ∷ v) (numbers_after-append (suc c) n m))

length-numbers_after : (c n : ℕ) → length (numbers_after c n) ≡ n
length-numbers_after c zero = refl
length-numbers_after c (suc n) = ap suc (length-numbers_after (suc c) n)

length-seqs : (es : List Event) → length (seqs es) ≡ length es
length-seqs [] = refl
length-seqs (e ∷ es) = ap suc (length-seqs es)

seqs-append : (as' bs : List Event) → seqs (as' ++ bs) ≡ seqs as' ++ seqs bs
seqs-append [] bs = refl
seqs-append (a ∷ as') bs = ap (λ v. a.seq ∷ v) (seqs-append as' bs)

last_seq-numbers : (c n : ℕ) (es : List Event) → seqs es ≡ numbers_after c n → last_seq c es ≡ c + n
unfolding last_seq
last_seq-numbers c zero [] h = omega arith
last_seq-numbers c zero (e ∷ es) h = cc
last_seq-numbers c (suc n) [] h = cc
last_seq-numbers c (suc n) (e ∷ es) h =
    let first : e.seq ≡ suc c = cc in
    let others : seqs es ≡ numbers_after (suc c) n = cc in
    let rest = last_seq-numbers (suc c) n es others in rw first (omega (arith, rest))

-- What is written of a run of numbers is a run.
write_events-numbers :
    (writes : ℕ → Bool) (k c n : ℕ) (es : List Event)
    → seqs es ≡ numbers_after c n
    → (m : ℕ) × (seqs (write_events writes k es).1 ≡ numbers_after c m)
unfolding write_events
write_events-numbers writes k c n [] h = (0, refl)
write_events-numbers writes k c zero (e ∷ es) h = cc
write_events-numbers writes k c (suc n) (e ∷ es) h = elim (Bool-cases (writes k)) [
  | inl q ↦
      let first : e.seq ≡ suc c = cc in
      let (m, rest) = write_events-numbers writes (k + 1) (suc c) n es cc in
      (suc m, rw q (ap₂ (λ a b. a ∷ b) first rest))
  | inr q ↦ (0, rw q refl)
]

module _ (e : Engine) (x : Reader) (decode : Bytes → Option Bytes) (hooks : List ProjectHook)
    (id : Identity) (chat : String) (ios : ℕ → ℕ → Bool) (seens dbs : ℕ → Db) (start : ℕ) where
  -- Events, at the two states that the page's two queries read.
  abbrev pub read_at : ℕ → ℕ → Outcome (List Event)
  read_at page cursor =
      events e x decode hooks id chat (ios page) (seens page) (dbs page) cursor 100

  -- The numbers that were sent follow the start without a gap, and the cursor is the last one. A flush that
  -- ends with no more events has reached the head that the first query of its last page saw, and has not
  -- passed the head of that page's second state.
  pub record IsDelivery (pages : ℕ) (f : Flushed) : Type 0 where
    pub count : ℕ
    pub in_order : map (λ v. v.seq) f.sent ≡ numbers_after start count
    pub at_last : f.cursor ≡ start + count
    pub at_head :
        f.ending ≡ caught_up
        → (page : ℕ) × (c : Chat) × (page * 100 ≤ count)
          × (count < page * 100 + 100)
          × (find_chat chat (seens page).chats ≡ some c)
          × (c.seq ≤ f.cursor)
          × (f.cursor ≤ head_seq chat (dbs page).chats)
    pub has_turn : f.ending ≡ again → count ≡ pages * 100

  -- What a page that was served has after the cursor.
  record IsPage (page cursor n : ℕ) (es : List Event) : Type 0 where
    pub row : Chat
    pub found : find_chat chat (seens page).chats ≡ some row
    pub size : IsPageSize 100 row.seq (head_seq chat (dbs page).chats) cursor n
    pub within : cursor ≤ row.seq
    pub ahead : row.seq ≤ head_seq chat (dbs page).chats
    pub run : seqs es ≡ numbers_after cursor n

  read_at-IsPage :
      (page cursor : ℕ) {es : List Event}
      → IsJournal (dbs page)
      → IsGapless (dbs page) chat
      → IsLater chat (seens page) (dbs page)
      → ((s : Seat)
          → find_live_seat (seens page) id chat ≡ some s
          → s.member.joined_seq ≤ start + 1)
      → start ≤ cursor
      → read_at page cursor ≡ ok es
      → (n : ℕ) × IsPage page cursor n es
  read_at-IsPage page cursor {es} j g l old after h =
      let (c, s, found, seated, le, (n, size, run)) =
        events-contiguous e x decode hooks id chat (ios page) (seens page) (dbs page) cursor 100 j g
          l h in
      let same : raised cursor s.member.joined_seq ≡ cursor = ground (arith, old s seated, after) in
      (
        n,
        record {
          row = c;
          found = found;
          size = subst (λ v. IsPageSize 100 c.seq (head_seq chat (dbs page).chats) v n) same size;
          within = rw same at le;
          ahead = omega (arith, l.grown, head_seq-found chat (seens page).chats c found);
          run = rw same at run;
        },
      )

  extended :
      (sent es : List Event) (k n : ℕ)
      → seqs sent ≡ numbers_after start k
      → seqs es ≡ numbers_after (start + k) n
      → seqs (sent ++ es) ≡ numbers_after start (k + n)
  extended sent es k n h q =
      seqs-append sent es ∙ ap₂ (λ a b. a ++ b) h q ∙ numbers_after-append start k n

  page_size : (es : List Event) (n c : ℕ) → seqs es ≡ numbers_after c n → length es ≡ n
  page_size es n c h = sym (length-seqs es) ∙ ap length h ∙ length-numbers_after c n

  full_page :
      (n current head cursor : ℕ)
      → IsPageSize 100 current head cursor n
      → ltb n 100 ≡ false
      → n ≡ 100
  full_page n current head cursor p full = ground (arith, full, p.no_more)

  short_page :
      (n current head cursor : ℕ)
      → IsPageSize 100 current head cursor n
      → ltb n 100 ≡ true
      → cursor ≤ current
      → current ≤ head
      → (current ≤ cursor + n) × (cursor + n ≤ head) × (n < 100)
  short_page n current head cursor p short lt le = (
    ground (arith, short, p.all_seen, lt),
    ground (arith, p.no_more, lt, le),
    ground (arith, short),
  )

  module _ (writes : ℕ → Bool) (journals : (i : ℕ) → IsJournal (dbs i))
      (gapless : (i : ℕ) → IsGapless (dbs i) chat)
      (later : (i : ℕ) → IsLater chat (seens i) (dbs i))
      (old : (i : ℕ) (s : Seat)
        → find_live_seat (seens i) id chat ≡ some s
        → s.member.joined_seq ≤ start + 1) where
    pages-IsDelivery :
        (left page total k : ℕ) (sent : List Event)
        → seqs sent ≡ numbers_after start k
        → k + left * 100 ≡ total * 100
        → k ≡ page * 100
        → IsDelivery total (flush_pages read_at writes left page (start + k) sent)
    unfolding flush_pages
    pages-IsDelivery zero page total k sent h turn whole = record {
      count = k;
      in_order = h;
      at_last = refl;
      at_head = λ q. cc;
      has_turn = λ q. omega (arith, turn);
    }
    pages-IsDelivery (suc left) page total k sent h turn whole =
        elim (Outcome-cases (read_at page (start + k))) [
          | inr (z, failed) ↦
              rw (failed, flush_pages)
                (record {
                  count = k;
                  in_order = h;
                  at_last = refl;
                  at_head = λ q. cc;
                  has_turn = λ q. cc;
                })
          | inl (es, q) ↦
              let (n, p) =
                read_at-IsPage page (start + k) (journals page) (gapless page) (later page)
                  (old page) (omega arith) q in
              let head = head_seq chat (dbs page).chats in
              let length_n = page_size es n (start + k) p.run in
              let (m, part) = write_events-numbers writes (length sent) (start + k) n es p.run in
              rw (q, flush_pages)
                (elim (Bool-cases (write_events writes (length sent) es).0) [
                  | inr failed ↦ rw failed (record {
                    count = k + m;
                    in_order = extended sent _ k m h part;
                    at_last = omega (arith, last_seq-numbers (start + k) m _ part);
                    at_head = λ q. cc;
                    has_turn = λ q. cc;
                  })
                  | inl through ↦ rw through (elim (Bool-cases (ltb (length es) 100)) [
                    | inl short ↦
                        let (reached, under, few) =
                          short_page n p.row.seq head (start + k) p.size (rw length_n at short)
                            p.within p.ahead in
                        let last = last_seq-numbers (start + k) n es p.run in
                        rw short (record {
                          count = k + n;
                          in_order = extended sent es k n h p.run;
                          at_last = omega (arith, last);
                          at_head = λ z. (
                            page,
                            p.row,
                            omega (arith, whole),
                            omega (arith, whole, few),
                            p.found,
                            omega (arith, reached, last),
                            omega (arith, under, last),
                          );
                          has_turn = λ z. cc;
                        })
                    | inr full ↦
                        let all : n ≡ 100 =
                          full_page n p.row.seq head (start + k) p.size (rw length_n at full) in
                        let next : last_seq (start + k) es ≡ start + (k + n) =
                          omega (arith, last_seq-numbers (start + k) n es p.run) in
                        rw full (
                          rw next (
                            pages-IsDelivery left (page + 1) total (k + n) (sent ++ es)
                              (extended sent es k n h p.run) (omega (arith, turn, all))
                              (omega (arith, whole, all))))
                  ])
                ])
        ]

    -- A flush of ten pages that starts at a cursor no earlier than the member's joining sends exactly the next
    -- numbers of the chat, in order, none left out and none twice, and leaves the cursor at the last; whatever
    -- is appended between the pages and between the two queries of a page. Every second state is a consistent
    -- journal without gaps of that chat, and between a page's two queries the chat's head does not go back
    -- and none of its oldest events is cleaned up. The flush stops because it reached the head that its last
    -- page saw, or after 1000 events, or because a read or a write failed.
    pub flush-IsDelivery : IsDelivery 10 (flush_pages read_at writes 10 0 start [])
    flush-IsDelivery =
        let here : start + 0 ≡ start = omega arith in
        subst (λ v. IsDelivery 10 (flush_pages read_at writes 10 0 v [])) here
          (pages-IsDelivery 10 0 10 0 [] refl (omega arith) (omega arith))
