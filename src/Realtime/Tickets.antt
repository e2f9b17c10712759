-- ===== src/Realtime/Tickets.antt =====
-- A ticket opens one connection.
use qgramm.Common.{
  ApiError, Outcome-cases, err, ℕ, ◌≤◌, ◌≡◌, inl, inr, refl, String, Bool, true, false, not, ◌&&◌,
  List, [], ◌∷◌, ◌++◌, none, find, any_row, delete_rows, str_eq, Bool-cases, arith, ok, require,
  >>=-eq-ok, ok-injective,
}
use qgramm.Store.{Identity, Db}
use qgramm.Realtime.{Ticket, Hub, redeems, issue, redeem, admit}

-- After its redemption, a ticket is not valid at that time or later.
redeem-is_spent :
    (hash : String) (now later : ℕ) (ts : List Ticket)
    → now ≤ later
    → any_row (redeems hash later) (delete_rows (redeems hash now) ts) ≡ false
redeem-is_spent hash now later [] le = refl
redeem-is_spent hash now later (t ∷ ts) le =
    ground (arith, le, redeem-is_spent hash now later ts le)

spent-find :
    (hash : String) (now : ℕ) (ts : List Ticket)
    → any_row (redeems hash now) ts ≡ false
    → find (redeems hash now) ts ≡ none
spent-find hash now [] h = refl
spent-find hash now (t ∷ ts) h = ground (arith, h, spent-find hash now ts)

spent-append :
    (hash : String) (now : ℕ) (ts : List Ticket) (t : Ticket)
    → any_row (redeems hash now) ts ≡ false
    → str_eq t.hash hash ≡ false
    → any_row (redeems hash now) (ts ++ t ∷ []) ≡ false
spent-append hash now [] t h d = ground (arith, d)
spent-append hash now (x ∷ ts) t h d = ground (arith, h, spent-append hash now ts t, d)

spent-delete :
    (hash other : String) (now later : ℕ) (ts : List Ticket)
    → any_row (redeems hash later) ts ≡ false
    → any_row (redeems hash later) (delete_rows (redeems other now) ts) ≡ false
spent-delete hash other now later [] h = refl
spent-delete hash other now later (t ∷ ts) h =
    ground (arith, h, spent-delete hash other now later ts)

spent-issue :
    (writes : Bool) (id : Identity) (hash new : String) (now later : ℕ) (ts : List Ticket)
    {ts' : List Ticket}
    → issue writes id new now ts ≡ ok ts'
    → str_eq new hash ≡ false
    → any_row (redeems hash later) ts ≡ false
    → any_row (redeems hash later) ts' ≡ false
unfolding issue
spent-issue writes id hash new now later ts {ts'} h d spent =
    let (_, _, h1) =
      >>=-eq-ok
        (require (writes && not (any_row (λ t. str_eq t.hash new) ts)) 503 "storage unavailable") _
        h in
    rw⁻¹ (ok-injective _ _ h1) (spent-append hash later ts _ spent d)

-- The tickets after other tickets were issued, and any tickets were presented.
pub data Later (hash : String) : List Ticket → List Ticket → Type 0 where
  at_once : (ts : List Ticket) → Later hash ts ts
  issued :
      (writes : Bool) (id : Identity) (new : String) (now : ℕ) (ts us vs : List Ticket)
      → Later hash ts us
      → issue writes id new now us ≡ ok vs
      → str_eq new hash ≡ false
      → Later hash ts vs
  presented :
      (other : String) (now : ℕ) (ts us : List Ticket)
      → Later hash ts us
      → Later hash ts (redeem other now us).1

Later-is_spent :
    (hash : String) (now : ℕ) (ts us : List Ticket)
    → Later hash ts us
    → any_row (redeems hash now) ts ≡ false
    → any_row (redeems hash now) us ≡ false
unfolding redeem
Later-is_spent hash now ts us (at_once _) spent = spent
Later-is_spent hash now ts us (issued writes id new then' _ vs _ past q d) spent =
    spent-issue writes id hash new then' now vs q d (Later-is_spent hash now ts vs past spent)
Later-is_spent hash now ts us (presented other then' _ vs past) spent =
    spent-delete hash other then' now vs (Later-is_spent hash now ts vs past spent)

module _ (max : ℕ) (origins : List String) (digest : String → String) where
  -- An admission redeemed its ticket.
  admit-tickets :
      (io : ℕ → Bool) (db : Db) (origin ticket : String) (now : ℕ) (ts : List Ticket) (h : Hub)
      {v : Identity × Hub}
      → (admit max origins digest io db origin ticket now ts h).1 ≡ ok v
      → ((admit max origins digest io db origin ticket now ts h).0
          ≡ delete_rows (redeems (digest ticket) now) ts)
        × (any_row (redeems (digest ticket) now) ts ≡ true)
  unfolding admit redeem
  admit-tickets io db origin ticket now ts h {v} q =
      elim (Bool-cases (any_row (redeems (digest ticket) now) ts)) [
        | inr spent ↦ absurd (ground (arith, q, spent-find (digest ticket) now ts spent))
        | inl valid ↦ (ground (arith, q), valid)
      ]

  -- A ticket that was admitted is refused from then on: at the same time or later, after any other tickets were
  -- issued and any tickets presented, by whatever origin, device state and number of connections.
  pub admit-once :
      (io io' : ℕ → Bool) (db db' : Db) (origin origin' ticket : String) (now later : ℕ)
      (ts us : List Ticket) (h h' : Hub) {v : Identity × Hub}
      → (admit max origins digest io db origin ticket now ts h).1 ≡ ok v
      → Later (digest ticket) (admit max origins digest io db origin ticket now ts h).0 us
      → now ≤ later
      → (x : ApiError) × ((admit max origins digest io' db' origin' ticket later us h').1 ≡ err x)
  admit-once io io' db db' origin origin' ticket now later ts us h h' q past le =
      let (rest, _) = admit-tickets io db origin ticket now ts h q in
      let spent =
        Later-is_spent (digest ticket) later _ us past
          (rw rest (redeem-is_spent (digest ticket) now later ts le)) in
      elim (Outcome-cases (admit max origins digest io' db' origin' ticket later us h').1) [
        | inr failed ↦ failed
        | inl (w, again) ↦
            let (_, valid) = admit-tickets io' db' origin' ticket later us h' again in
            absurd (ground (arith, spent, valid))
      ]
