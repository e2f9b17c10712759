-- ===== src/Calls/Transitions.antt =====
-- The life of a call: which signals move it, who may send them, and that an ended call stays ended.
use qgramm.Common.{
  ℕ, ◌≡◌, ◌≢◌, ◌⊎◌, inl, inr, refl, sym, ap, ◌∙◌, String, Bool, true, ◌&&◌, ◌||◌, Option, none,
  some, arith, str_eq, str_len, leb, eq_iff, Outcome, ok, err, require, row_or, >>=-eq-ok,
  require-eq-ok, row_or-eq-ok, some-injective, find, map_option, update_rows, subst,
  find-update_rows, find-holds, Bool-cases,
}
use qgramm.Store.{Bytes, Db, Identity, Engine, Chat, find_chat, member, append}
use qgramm.Calls.{
  CallState, ringing, active, ended, Kind, accept, reject, hangup, offer, answer, ice, Call,
  CallOperation, World, SignalInput, Wire, Reply, is_live_state, kind_of, find_call,
  find_call_operation, transition, media_notice, call_permission, signal_notice, set_state,
  persist_signal, event_kind, fresh_signal, answered, signal, epoch_settled, signal_event,
  same_state,
}

-- The diagram: a signal by a participant in a role, from one state to the next.
pub data Edge (caller callee : Bool) : Kind → CallState → CallState → Type 0 where
  accepts : callee ≡ true → Edge caller callee accept ringing active
  rejects : callee ≡ true → Edge caller callee reject ringing ended
  gives_up : Edge caller callee hangup ringing ended
  hangs_up : Edge caller callee hangup active ended
  offers_ringing : caller ≡ true → Edge caller callee offer ringing ringing
  offers_active : caller ≡ true → Edge caller callee offer active active
  answers : callee ≡ true → Edge caller callee answer active active
  ice_ringing : Edge caller callee ice ringing ringing
  ice_active : Edge caller callee ice active active

pub ruleset edges = (
  accepts, rejects, gives_up, hangs_up, offers_ringing, offers_active, answers, ice_ringing,
  ice_active,
)

transition-Edge :
    (k : Kind) (s : CallState) (caller callee : Bool) {s' : CallState}
    → transition k s caller callee ≡ ok s'
    → Edge caller callee k s s'
unfolding transition is_live_state
transition-Edge k s caller callee h = grind (arith, edges)

signal_event-some : (o : Outcome (ℕ × Db)) {a : ℕ × Db} → signal_event o ≡ some a → o ≡ ok a
signal_event-some (ok a) h = cc
signal_event-some (err e) h = cc

same_state-true : (s t : CallState) → same_state s t ≡ true → s ≡ t
same_state-true s t h = ground arith

-- The state of the stored call after the writes.
find_call-persist :
    (w : World) (id : Identity) (c : Call) (input : SignalInput) (hash : String) (s : CallState)
    (seq : ℕ) (db : Db) (now : ℕ) (call : String)
    → find_call call w.calls ≡ some c
    → (c' : Call) × (find_call call (persist_signal w id c input hash s seq db now).calls ≡ some c')
      × (c'.state ≡ s)
      × (c'.caller ≡ c.caller)
      × (c'.callee ≡ c.callee)
      × (c'.chat_id ≡ c.chat_id)
      × (c'.id ≡ c.id)
unfolding persist_signal find_call set_state
find_call-persist w id c input hash s seq db now call h = elim (Bool-cases (same_state s c.state)) [
  | inl q ↦ (c, rw q h, sym (same_state-true s c.state q), refl, refl, refl, refl)
  | inr q ↦
      let move : Call → Call = λ y. record y { state = s; updated_at = now } in
      let named : c.id ≡ call =
        (eq_iff c.id call).0 (find-holds (λ y. str_eq y.id call) w.calls h) in
      (
        record c { state = s; updated_at = now },
        rw q (
            subst
              (λ k.
                find (λ y. str_eq y.id call) (update_rows (λ y. str_eq y.id k) move w.calls)
                ≡ some (move c))
              (sym named)
              (find-update_rows (λ y. str_eq y.id call) move w.calls (λ y v. v)
                ∙ ap (map_option move) h)),
        refl,
        refl,
        refl,
        refl,
        refl,
      )
]

module _ (e : Engine) (x : Wire) (io : ℕ → Bool) (w : World) (id : Identity) (input : SignalInput)
    (now : ℕ) where
  -- What a new signal did to a call: an edge of the diagram, by a sender with access, and its writes.
  pub record IsMove (c : Call) (w' : World) (r : Reply) : Type 0 where
    pub kind : Kind
    pub named : kind_of input.kind ≡ some kind
    pub edge : Edge (str_eq id.user_id c.caller) (str_eq id.user_id c.callee) kind c.state r.state
    pub allowed : call_permission w.db id c.chat_id ≡ true
    pub body : Option Bytes
    pub logged :
        append e (io 1) (io 2) w.db c.chat_id (event_kind kind) "" body now ≡ ok (r.seq, w'.db)
    pub shape : w' ≡ persist_signal w id c input (x.hash_signal input) r.state r.seq w'.db now

  fresh_signal-IsMove :
      (c : Call) (chat : Chat) {w' : World} {r : Reply}
      → fresh_signal e x io w id c chat input now ≡ ok (w', r)
      → IsMove c w' r
  unfolding fresh_signal persist_signal
  fresh_signal-IsMove c chat {w'} {r} h =
      let (k, hk, h1) = >>=-eq-ok (row_or (kind_of input.kind) 400 "invalid signal type") _ h in
      let (s, hs, h2) =
        >>=-eq-ok (transition k c.state (str_eq id.user_id c.caller) (str_eq id.user_id c.callee)) _
          h1 in
      let (p, _, h3) = >>=-eq-ok (media_notice x id c.chat_id chat.mode k input) _ h2 in
      let (_, _, h4) = >>=-eq-ok (require (io 0) 500 "signal persistence failed") _ h3 in
      let (_, hp, h5) =
        >>=-eq-ok (require (call_permission w.db id c.chat_id) 403 "call access changed") _ h4 in
      let (_, _, h6) =
        >>=-eq-ok (require (epoch_settled k chat input) 409 "MLS epoch changed or rekey pending") _
          h5 in
      let (n, _, h7) = >>=-eq-ok (signal_notice x w.db id c chat k input p) _ h6 in
      let (a, ha, h8) =
        >>=-eq-ok
          (row_or
            (signal_event (
              append e (io 1) (io 2) w.db c.chat_id (event_kind k) "" (some (x.encode_notice n))
                now))
            500 "signal persistence failed")
          _ h7 in
      let (_, _, h9) = >>=-eq-ok (require (io 3) 500 "call transition failed") _ h8 in
      let (_, _, h10) = >>=-eq-ok (require (io 4) 500 "operation persistence failed") _ h9 in
      let (_, _, h11) = >>=-eq-ok (require (io 5) 500 "signal persistence failed") _ h10 in
      let to_r : r.state ≡ s = ground arith in
      record {
        kind = k;
        named = row_or-eq-ok _ _ _ hk;
        edge = rw to_r (transition-Edge k c.state _ _ hs);
        allowed = require-eq-ok _ _ _ hp;
        body = some (x.encode_notice n);
        logged = ground (arith, signal_event-some _ (row_or-eq-ok _ _ _ ha));
        shape = ground arith;
      }

  answered-fresh :
      (c : Call) (chat : Chat) (o : Option CallOperation) {r : World × Reply}
      → o ≡ none
      → answered e x io w id c chat input now o ≡ ok r
      → fresh_signal e x io w id c chat input now ≡ ok r
  unfolding answered
  answered-fresh c chat none q h = h
  answered-fresh c chat (some o) q h = cc

  either_user :
      (c : Call)
      → (str_eq id.user_id c.caller || str_eq id.user_id c.callee) ≡ true
      → (id.user_id ≡ c.caller) ⊎ (id.user_id ≡ c.callee)
  either_user c h = elim (Bool-cases (str_eq id.user_id c.caller)) [
    | inl q ↦ inl ((eq_iff _ _).0 q)
    | inr q ↦ inr ((eq_iff _ _).0 (rw q at h))
  ]

  -- A signal of a new operation that is accepted was sent by the caller or the callee and moves the
  -- call along an edge of the diagram, in the role that the edge wants and with access to the chat, and the call is then
  -- found in the state that the reply names.
  pub signal_moves :
      (call : String) {w' : World} {r : Reply}
      → find_call_operation id.device_id input.operation w.operations ≡ none
      → signal e x io w id call input now ≡ ok (w', r)
      → (c : Call) × (find_call call w.calls ≡ some c)
        × ((id.user_id ≡ c.caller) ⊎ (id.user_id ≡ c.callee))
        × IsMove c w' r
        × ((c' : Call) × (find_call call w'.calls ≡ some c') × (c'.state ≡ r.state))
  unfolding signal
  signal_moves call {w'} {r} new h =
      let (c, hc, h1) = >>=-eq-ok (row_or (find_call call w.calls) 404 "call unavailable") _ h in
      let (_, side, h2) =
        >>=-eq-ok
          (require (str_eq id.user_id c.caller || str_eq id.user_id c.callee) 403
            "call access denied")
          _ h1 in
      let (m, _, h3) =
        >>=-eq-ok (row_or (member w.db id.user_id c.chat_id) 403 "chat access denied") _ h2 in
      let (_, _, h4) = >>=-eq-ok (require m.can_send 403 "chat access denied") _ h3 in
      let (chat, _, h5) =
        >>=-eq-ok (row_or (find_chat c.chat_id w.db.chats) 404 "chat unavailable") _ h4 in
      let (_, _, h6) =
        >>=-eq-ok
          (require (leb 1 (str_len input.operation) && leb (str_len input.operation) 128) 400
            "operation_id required")
          _ h5 in
      let found = row_or-eq-ok _ _ _ hc in
      let move = fresh_signal-IsMove c chat (answered-fresh c chat _ new h6) in
      let (c', f, s, _, _, _, _) =
        find_call-persist w id c input (x.hash_signal input) r.state r.seq w'.db now call found in
      (
        c,
        found,
        either_user c (require-eq-ok _ _ _ side),
        move,
        (c', rw (ap (λ v. v.calls) move.shape) f, s),
      )

  Edge-ended : {a b : Bool} {k : Kind} {s s' : CallState} → Edge a b k s s' → s ≢ ended
  Edge-ended (accepts _) q = cc
  Edge-ended (rejects _) q = cc
  Edge-ended gives_up q = cc
  Edge-ended hangs_up q = cc
  Edge-ended (offers_ringing _) q = cc
  Edge-ended (offers_active _) q = cc
  Edge-ended (answers _) q = cc
  Edge-ended ice_ringing q = cc
  Edge-ended ice_active q = cc

  -- A call that has ended accepts no signal of a new operation.
  pub signal_ended :
      (call : String) (c : Call) {r : World × Reply}
      → find_call call w.calls ≡ some c
      → c.state ≡ ended
      → find_call_operation id.device_id input.operation w.operations ≡ none
      → signal e x io w id call input now ≢ ok r
  signal_ended call c found over new h =
      let (c0, f, _, move, _) = signal_moves call new h in
      Edge-ended move.edge (ap (λ y. y.state) (some-injective _ _ (sym f ∙ found)) ∙ over)
