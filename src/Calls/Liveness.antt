-- ===== src/Calls/Liveness.antt =====
-- At most one call is in progress in a chat.
use qgramm.Common.{
  ℕ, ◌+◌, ◌≤◌, ◌≡◌, String, Bool, true, ◌&&◌, ◌||◌, some, List, [], ◌∷◌, ◌++◌, arith, str_eq, ok,
  require, row_or, >>=-eq-ok, require-eq-ok, if◌then◌else◌, ◌==◌, ==_iff,
}
use qgramm.Store.{Bytes, Identity, Engine, find_chat, member, append}
use qgramm.Calls.{
  ringing, ended, Call, World, Reply, is_live_state, set_state, call_permission, live_calls,
  active_members, other_member, event_of, create_call,
}

live_calls-append :
    (x : String) (cs : List Call) (c : Call)
    → live_calls x (cs ++ c ∷ [])
      ≡ live_calls x cs + (if str_eq c.chat_id x && is_live_state c.state then 1 else 0)
unfolding live_calls
live_calls-append x [] c = ground arith
live_calls-append x (y ∷ ys) c = ground (arith, live_calls-append x ys c)

-- Ending a call puts none in progress.
pub live_calls-ended :
    (x k : String) (now : ℕ) (cs : List Call)
    → live_calls x (set_state k ended now cs) ≤ live_calls x cs
unfolding live_calls set_state is_live_state
live_calls-ended x k now [] = omega arith
live_calls-ended x k now (c ∷ cs) = ground (arith, live_calls-ended x k now cs)

module _ (e : Engine) (io : ℕ → Bool) (w : World) (id : Identity) (chat mode call : String)
    (body : Bytes) (now : ℕ) where
  -- A call is created only in a chat with two active members and no call in progress, by a sender with
  -- access; it rings, and adds one call in progress to that chat and none to any other.
  pub create_call_alone :
      {w' : World} {r : Reply}
      → create_call e io w id chat mode call body now ≡ ok (w', r)
      → (live_calls chat w.calls ≡ 0)
        × ((x : String)
            → live_calls x w'.calls ≡ live_calls x w.calls + (if str_eq chat x then 1 else 0))
        × (active_members w.db chat ≡ 2)
        × (call_permission w.db id chat ≡ true)
        × (r.state ≡ ringing)
  unfolding create_call is_live_state
  create_call_alone {w'} {r} h =
      let (_, _, h1) =
        >>=-eq-ok (require (str_eq mode "audio" || str_eq mode "video") 400 "invalid call mode") _
          h in
      let (m, _, h2) =
        >>=-eq-ok (row_or (member w.db id.user_id chat) 403 "chat access denied") _ h1 in
      let (_, _, h3) = >>=-eq-ok (require m.can_send 403 "chat access denied") _ h2 in
      let (c, _, h4) =
        >>=-eq-ok (row_or (find_chat chat w.db.chats) 400 "calls require a direct chat") _ h3 in
      let (_, _, h5) =
        >>=-eq-ok (require (str_eq c.kind "direct") 400 "calls require a direct chat") _ h4 in
      let (_, h6', h6) =
        >>=-eq-ok
          (require (active_members w.db chat == 2) 409 "calls require two active participants") _
          h5 in
      let (peer, _, h7) =
        >>=-eq-ok (row_or (other_member w.db chat id.user_id) 409 "peer unavailable") _ h6 in
      let (_, free, h8) =
        >>=-eq-ok (require (live_calls chat w.calls == 0) 409 "call already in progress") _ h7 in
      let (_, _, h9) = >>=-eq-ok (require (io 0) 500 "create call failed") _ h8 in
      let (_, perm, h10) =
        >>=-eq-ok (require (call_permission w.db id chat) 403 "call access changed") _ h9 in
      let (_, _, h11) =
        >>=-eq-ok (require (active_members w.db chat == 2) 409 "call participants changed") _ h10 in
      let (_, _, h12) = >>=-eq-ok (require (io 1) 500 "create call failed") _ h11 in
      let (a, _, h13) =
        >>=-eq-ok
          (row_or (event_of (append e (io 2) (io 3) w.db chat "call.ringing" "" (some body) now))
            500 "signal persistence failed")
          _ h12 in
      let (_, _, h14) = >>=-eq-ok (require (io 4) 500 "create call failed") _ h13 in
      let none_live : live_calls chat w.calls ≡ 0 = (==_iff _ _).0 (require-eq-ok _ _ _ free) in
      let new : Call = record {
        id = call;
        chat_id = chat;
        caller = id.user_id;
        callee = peer.user_id;
        state = ringing;
        mode = mode;
        created_at = now;
        updated_at = now;
      } in
      let grown : w'.calls ≡ w.calls ++ new ∷ [] = ground arith in
      (
        none_live,
        λ x. rw grown (ground (arith, live_calls-append x w.calls new)),
        (==_iff _ _).0 (require-eq-ok _ _ _ h6'),
        require-eq-ok _ _ _ perm,
        ground arith,
      )
