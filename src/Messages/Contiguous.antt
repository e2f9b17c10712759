-- ===== src/Messages/Contiguous.antt =====
-- A page of events leaves no event out: its numbers are the next ones after the cursor.
use qgramm.Common.{
  ℕ, subst, ◌≤◌, ◌<◌, ◌≡◌, refl, sym, ◌∙◌, ◌⊎◌, String, Bool, true, false, not, ◌&&◌, List, map,
  Option, none, some, arith, All, ltb, leb, ◌==◌, ==_iff, Bool-cases, inl, inr, ok, require, row_or,
  >>=-eq-ok, require-eq-ok, row_or-eq-ok, ok-injective, some-injective,
}
use qgramm.Store.{
  Bytes, Identity, Db, Engine, Chat, Seat, IsJournal, head_seq, head_seq-found, find_chat,
  find_live_seat, written, has_key, IsDense, numbers_after,
}
use qgramm.Messages.{
  Reader, ProjectHook, Event, in_chat_event, covers, raised, min_event, check_cursor, events,
}
use qgramm.Messages.Replay.{read_after}
use qgramm.Messages.Pages.{row_seq, IsPageSize, read_page-seqs, page_rows-numbers, in_chat-below}

-- The journal of a chat has every number from its oldest event to its head.
abbrev pub IsGapless : Db → String → Type 0
IsGapless db chat =
    (first : ℕ)
    → min_event chat db.events ≡ some first
    → (k : ℕ) → first ≤ k
    → k ≤ head_seq chat db.chats
    → has_key row_seq (in_chat_event chat) k db.events ≡ true

-- The second state that a page reads: the chat's head did not go back, and none of the chat's oldest
-- events was cleaned up since the first.
pub record IsLater (chat : String) (seen db : Db) : Type 0 where
  pub grown : head_seq chat seen.chats ≤ head_seq chat db.chats
  pub kept :
      (first : ℕ) → min_event chat seen.events ≡ some first → min_event chat db.events ≡ some first

between : (a b : ℕ) → leb a b ≡ true → (a == b) ≡ false → a < b
between a b l q = ground arith

below_head : (a b : ℕ) → leb a b ≡ true → (a == b) ≡ false → ltb a b ≡ true
below_head a b l q = ground arith

kept_covers :
    (lower covered : Bool) → not (lower && not covered) ≡ true → lower ≡ true → covered ≡ true
kept_covers lower covered k l = ground arith

module _ (e : Engine) (x : Reader) (decode : Bytes → Option Bytes) (hooks : List ProjectHook)
    (id : Identity) (chat : String) where
  -- A cursor that passes lies within what the journal still holds.
  check_cursor-range :
      (current : ℕ) (minimum : Option ℕ) (after : ℕ) {o : Option ℕ}
      → check_cursor current minimum after ≡ ok o
      → ((o ≡ none) × (after ≡ current))
        ⊎ ((o ≡ some after) × (after < current) × (covers minimum after ≡ true))
  unfolding check_cursor
  check_cursor-range current minimum after {o} h =
      let (_, kept, h1) =
        >>=-eq-ok
          (require (not (ltb after current && not (covers minimum after))) 410
            "cursor expired; sync history and current state")
          _ h in
      let (_, within, h2) =
        >>=-eq-ok (require (leb after current) 400 "cursor ahead of chat") _ h1 in
      let k = require-eq-ok _ _ _ kept in
      let w = require-eq-ok _ _ _ within in
      elim (Bool-cases (after == current)) [
        | inl q ↦ inl (sym (rw q at (ok-injective _ _ h2)), (==_iff after current).0 q)
        | inr q ↦ inr (
          sym (rw q at (ok-injective _ _ h2)),
          between after current w q,
          kept_covers (ltb after current) (covers minimum after) k (below_head after current w q),
        )
      ]

  -- With the cursor at the head there is nothing to read.
  caught_up :
      (reads : Bool) (db : Db) (current head cursor limit : ℕ) (o : Option ℕ) {es : List Event}
      → o ≡ none
      → cursor ≡ current
      → read_after e x decode hooks id chat reads db current limit o ≡ ok es
      → (n : ℕ) × IsPageSize limit current head cursor n
        × (map (λ v. v.seq) es ≡ numbers_after cursor n)
  caught_up reads db current head cursor limit (some n) q top h = cc
  caught_up reads db current head cursor limit none q top h = (
    0,
    record { all_seen = ground (arith, top); no_more = omega arith },
    rw⁻¹ (ok-injective _ _ h) refl,
  )

  read_next :
      (reads : Bool) (db : Db) (d : Chat) (current cursor limit : ℕ) (o : Option ℕ)
      {es : List Event}
      → find_chat chat db.chats ≡ some d
      → o ≡ some cursor
      → cursor < current
      → current ≤ d.seq
      → IsDense row_seq (in_chat_event chat) cursor d.seq db.events
      → All (λ r. in_chat_event chat r ≡ true → row_seq r ≤ d.seq) db.events
      → 1 ≤ limit
      → read_after e x decode hooks id chat reads db current limit o ≡ ok es
      → (n : ℕ) × IsPageSize limit current d.seq cursor n
        × (map (λ v. v.seq) es ≡ numbers_after cursor n)
  read_next reads db d current cursor limit none found q lt le dense below pos h = cc
  read_next reads db d current cursor limit (some m) found q lt le dense below pos h =
      let (_, _, h1) = >>=-eq-ok (written reads) _ h in
      let same : m ≡ cursor = some-injective _ _ q in
      let (n, size, run) =
        page_rows-numbers e x decode hooks id chat db current d.seq cursor limit dense below lt le
          pos in
      (
        n,
        size,
        read_page-seqs e x decode hooks id chat db current cursor limit (find_chat chat db.chats) d
              found (rw same at h1)
            ∙ run,
      )

  -- The chat is still there when its head is not 0.
  still_there :
      (db : Db) (low : ℕ) (o : Option Chat)
      → find_chat chat db.chats ≡ o
      → low < head_seq chat db.chats
      → (d : Chat) × (find_chat chat db.chats ≡ some d)
  unfolding head_seq
  still_there db low none q lt = absurd (ground (arith, q, lt))
  still_there db low (some d) q lt = (d, q)

  gapless_after :
      (db : Db) (after head : ℕ)
      → IsGapless db chat
      → head_seq chat db.chats ≡ head
      → (m : Option ℕ) → min_event chat db.events ≡ m
      → covers m after ≡ true
      → IsDense row_seq (in_chat_event chat) after head db.events
  gapless_after db after head g h none q c = cc
  gapless_after db after head g h (some first) q c =
      λ k lo hi. g first q k (ground (arith, c)) (rw h hi)

  -- What the cursor was checked against is still the oldest event.
  still_gapless :
      (seen db : Db) (after head : ℕ)
      → IsLater chat seen db
      → IsGapless db chat
      → head_seq chat db.chats ≡ head
      → (m : Option ℕ) → min_event chat seen.events ≡ m
      → covers m after ≡ true
      → IsDense row_seq (in_chat_event chat) after head db.events
  still_gapless seen db after head l g h none q c = cc
  still_gapless seen db after head l g h (some first) q c =
      gapless_after db after head g h (some first) (l.kept first q) c

  cursor_le :
      (current : ℕ) (minimum : Option ℕ) (after : ℕ) {o : Option ℕ}
      → check_cursor current minimum after ≡ ok o
      → after ≤ current
  cursor_le current minimum after h = elim (check_cursor-range current minimum after h) [
    | inl (_, top) ↦ omega (arith, top)
    | inr (_, lt, _) ↦ omega (arith, lt)
  ]

  next_page :
      (reads : Bool) (seen db : Db) (current cursor limit : ℕ) (o : Option ℕ) {es : List Event}
      → IsJournal db
      → IsGapless db chat
      → IsLater chat seen db
      → current ≤ head_seq chat db.chats
      → o ≡ some cursor
      → cursor < current
      → covers (min_event chat seen.events) cursor ≡ true
      → 1 ≤ limit
      → read_after e x decode hooks id chat reads db current limit o ≡ ok es
      → (n : ℕ) × IsPageSize limit current (head_seq chat db.chats) cursor n
        × (map (λ v. v.seq) es ≡ numbers_after cursor n)
  next_page reads seen db current cursor limit o j g l grown some_left lt cov pos h =
      let (d, found) =
        still_there db cursor (find_chat chat db.chats) refl (omega (arith, lt, grown)) in
      let head = head_seq-found chat db.chats d found in
      let (n, size, run) =
        read_next reads db d current cursor limit o found some_left lt (omega (arith, grown, head))
          (still_gapless seen db cursor d.seq l g head (min_event chat seen.events) refl cov)
          (in_chat-below e x decode hooks id chat db d.seq j head) pos h in
      (n, subst (λ v. IsPageSize limit current v cursor n) (sym head) size, run)

  pub events-contiguous :
      (io : ℕ → Bool) (seen db : Db) (after limit : ℕ) {es : List Event}
      → IsJournal db
      → IsGapless db chat
      → IsLater chat seen db
      → events e x decode hooks id chat io seen db after limit ≡ ok es
      → (c : Chat) × (s : Seat) × (find_chat chat seen.chats ≡ some c)
        × (find_live_seat seen id chat ≡ some s)
        × (raised after s.member.joined_seq ≤ c.seq)
        × ((n : ℕ) × IsPageSize limit c.seq
              (head_seq chat db.chats)
              (raised after s.member.joined_seq)
              n
            × (map (λ v. v.seq) es ≡ numbers_after (raised after s.member.joined_seq) n))
  unfolding events
  events-contiguous io seen db after limit {es} j g l h =
      let (_, hl, h1) =
        >>=-eq-ok (require (leb 1 limit && leb limit 200) 400 "event limit must be 1..200") _ h in
      let (_, _, h2) = >>=-eq-ok (written (io 0)) _ h1 in
      let (c, hc, h3) =
        >>=-eq-ok (row_or (find_chat chat seen.chats) 403 "membership required") _ h2 in
      let (s, hs, h4) =
        >>=-eq-ok (row_or (find_live_seat seen id chat) 403 "membership required") _ h3 in
      let cursor = raised after s.member.joined_seq in
      let oldest = min_event chat seen.events in
      let (o, ho, h5) = >>=-eq-ok (check_cursor c.seq oldest cursor) _ h4 in
      let found : find_chat chat seen.chats ≡ some c = row_or-eq-ok _ _ _ hc in
      let grown : c.seq ≤ head_seq chat db.chats =
        omega (arith, l.grown, head_seq-found chat seen.chats c found) in
      (
        c,
        s,
        found,
        row_or-eq-ok _ _ _ hs,
        cursor_le c.seq oldest cursor ho,
        elim (check_cursor-range c.seq oldest cursor ho) [
          | inl (none_left, top) ↦
              caught_up (io 1) db c.seq (head_seq chat db.chats) cursor limit o none_left top h5
          | inr (some_left, lt, cov) ↦
              next_page (io 1) seen db c.seq cursor limit o j g l grown some_left lt cov
                (ground (arith, require-eq-ok _ _ _ hl)) h5
        ],
      )
