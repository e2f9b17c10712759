-- ===== src/Tests/Calling.antt =====
-- Calls at concrete inputs: alice calls bob, and bob accepts.
use qgramm.Common.{
  ◌+◌, ◌≡◌, ◌≢◌, ◌⊎◌, refl, String, true, [], ◌∷◌, none, some, ok, str_eq, if◌then◌else◌,
}
use qgramm.Store.{
  find_user, find_device, find_chat, find_member, find_seat, find_live_seat, member, append,
  push_event, bump_seq, has_event,
}
use qgramm.Calls.{
  ringing, ended, Call, World, SignalInput, Wire, Reply, is_live_state, is_media, kind_of,
  find_call, find_call_operation, transition, media_notice, call_permission, signal_notice,
  set_state, persist_signal, event_kind, fresh_signal, answered, signal, live_calls, active_members,
  create_call,
}
use qgramm.Calls.Transitions.{IsMove, signal_moves, signal_ended}
use qgramm.Calls.Liveness.{create_call_alone}
use qgramm.Tests.Fixture.{value_or, works, clear_engine, start_db, alice, bob}

abbrev wire : Wire
wire = record {
  decode_base64 = λ s. some [];
  hash_signal = λ i. "h";
  open_envelope = λ b c i o. some b;
  decode_payload = λ b. none;
  encode_payload = λ p. [];
  seal_envelope = λ k b c i o. some b;
  encode_notice = λ n. [];
}

abbrev quiet : World
quiet = record { db = start_db; calls = []; operations = [] }

abbrev no_reply : World × Reply
no_reply = (quiet, record { seq = 0; state = ended })

abbrev rung : World × Reply
rung = value_or (create_call clear_engine works quiet alice "talk" "audio" "c1" [] 100) no_reply

rung_ok :
    create_call clear_engine works quiet alice "talk" "audio" "c1" [] 100 ≡ ok (rung.0, rung.1)
unfolding create_call find_user find_device find_chat find_member find_seat find_live_seat member
    append push_event bump_seq has_event live_calls active_members call_permission is_live_state
rung_ok = refl

create_call_alone_example :
    (live_calls "talk" quiet.calls ≡ 0)
    × ((x : String)
        → live_calls x rung.0.calls ≡ live_calls x quiet.calls + (if str_eq "talk" x then 1 else 0))
    × (active_members start_db "talk" ≡ 2)
    × (call_permission start_db alice "talk" ≡ true)
    × (rung.1.state ≡ ringing)
create_call_alone_example =
    create_call_alone clear_engine works quiet alice "talk" "audio" "c1" [] 100 rung_ok

abbrev ringing_call : Call
ringing_call = record {
  id = "c1";
  chat_id = "talk";
  caller = "alice";
  callee = "bob";
  state = ringing;
  mode = "audio";
  created_at = 100;
  updated_at = 100;
}

abbrev ringing_world : World
ringing_world = record quiet { calls = ringing_call ∷ [] }

abbrev accepts : SignalInput
accepts = record {
  kind = "accept";
  operation = "s1";
  to_device = "";
  envelope = none;
  mls = "";
  epoch = 0;
}

abbrev accepted : World × Reply
accepted = value_or (signal clear_engine wire works ringing_world bob "c1" accepts 110) no_reply

accepted_ok :
    signal clear_engine wire works ringing_world bob "c1" accepts 110 ≡ ok (accepted.0, accepted.1)
unfolding signal answered fresh_signal find_call find_call_operation kind_of transition media_notice
    is_media signal_notice persist_signal set_state event_kind find_user find_device find_chat
    find_member find_seat find_live_seat member append push_event bump_seq has_event call_permission
    is_live_state
accepted_ok = refl

signal_moves_example :
    (c : Call) × (find_call "c1" ringing_world.calls ≡ some c)
    × (("bob" ≡ c.caller) ⊎ ("bob" ≡ c.callee))
    × IsMove clear_engine wire works ringing_world bob accepts 110 c accepted.0 accepted.1
    × ((c' : Call) × (find_call "c1" accepted.0.calls ≡ some c') × (c'.state ≡ accepted.1.state))
unfolding find_call_operation
signal_moves_example =
    signal_moves clear_engine wire works ringing_world bob accepts 110 "c1" refl accepted_ok

abbrev over_call : Call
over_call = record ringing_call { state = ended }

abbrev over_world : World
over_world = record quiet { calls = over_call ∷ [] }

signal_ended_example : signal clear_engine wire works over_world bob "c1" accepts 110 ≢ ok no_reply
unfolding find_call find_call_operation
signal_ended_example =
    signal_ended clear_engine wire works over_world bob accepts 110 "c1" over_call refl refl refl
