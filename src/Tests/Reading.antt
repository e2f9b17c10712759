-- ===== src/Tests/Reading.antt =====
-- Reading messages and the journal at concrete inputs.
use qgramm.Common.{
  ℕ, ◌≡◌, refl, true, false, List, [], ◌∷◌, Option, none, some, Outcome, ok, fail, arith,
}
use qgramm.Store.{
  Db, head_seq, Bytes, Seat, IsJournal, append-IsJournal, find_seat, find_live_seat, find_user,
  find_device, find_chat, find_member, find_message, find_operation, append, push_event, bump_seq,
  has_event,
}
use qgramm.Messages.{
  Reader, ProjectHook, Event, events, min_event, view_message, history, send_result,
  persist_message, settle, persist_fresh, insert_message, run_hooks, reply_hook, forward_hook,
}
use qgramm.Messages.Contiguous.{IsGapless, IsLater}
use qgramm.Messages.Gapless.{append-IsGapless}
use qgramm.Messages.RoundTrip.{enveloped, persist-view}
use qgramm.Messages.Withheld.{revoke-withholds}
use qgramm.Management.{revoke_device, set_revoked, set_pending, in_chat}
use qgramm.Tests.Fixture.{value_or, works, clear_engine, start_db, bob, talk, draft}
use qgramm.Tests.Sending.{number_codec, hooks, sent_db, sent_message, sent_ok}

abbrev pub reader : Reader
reader = record {
  decode_metadata = λ b. some (record { attachments = []; forward_from = ""; reply_to = "" });
  parse_recipient = λ s. some [];
  seal_for = λ k b c i m. some b;
  encode_base64 = λ b. "";
}

abbrev fifth : Outcome (ℕ × Db)
fifth = append clear_engine true true start_db "talk" "chat.renamed" "" none 100

abbrev pub fifth_db : Db
fifth_db = (value_or fifth (0, start_db)).1

fifth_ok : fifth ≡ ok (5, fifth_db)
unfolding append push_event bump_seq has_event find_chat
fifth_ok = refl

abbrev sixth : Outcome (ℕ × Db)
sixth = append clear_engine true true fifth_db "talk" "chat.renamed" "" none 101

abbrev pub sixth_db : Db
sixth_db = (value_or sixth (0, start_db)).1

sixth_ok : sixth ≡ ok (6, sixth_db)
unfolding append push_event bump_seq has_event find_chat
sixth_ok = refl

empty-IsGapless : IsGapless start_db "talk"
unfolding min_event
empty-IsGapless first h k lo hi = cc

fifth-IsJournal : IsJournal fifth_db
fifth-IsJournal =
    append-IsJournal clear_engine true true start_db "talk" "chat.renamed" "" none 100 5 fifth_db tt
      fifth_ok

fifth-IsGapless : IsGapless fifth_db "talk"
fifth-IsGapless =
    append-IsGapless clear_engine true true start_db "talk" "chat.renamed" "" none 100 5 fifth_db
      "talk" tt empty-IsGapless fifth_ok

pub sixth-IsJournal : IsJournal sixth_db
sixth-IsJournal =
    append-IsJournal clear_engine true true fifth_db "talk" "chat.renamed" "" none 101 6 sixth_db
      fifth-IsJournal sixth_ok

pub sixth-IsGapless : IsGapless sixth_db "talk"
sixth-IsGapless =
    append-IsGapless clear_engine true true fifth_db "talk" "chat.renamed" "" none 101 6 sixth_db
      "talk" fifth-IsJournal fifth-IsGapless sixth_ok

append-IsGapless_example : IsGapless sixth_db "talk"
append-IsGapless_example =
    append-IsGapless clear_engine true true fifth_db "talk" "chat.renamed" "" none 101 6 sixth_db
      "talk" fifth-IsJournal fifth-IsGapless sixth_ok

pub sixth-IsLater : IsLater "talk" fifth_db sixth_db
unfolding head_seq min_event append push_event bump_seq has_event find_chat
sixth-IsLater = record { grown = omega arith; kept = λ first h. h }

abbrev pub echo : Bytes → Option Bytes
echo b = some b

abbrev read : Outcome (List Event)
read = events clear_engine reader echo [] bob "talk" works fifth_db sixth_db 4 100

abbrev read_events : List Event
read_events = value_or read []

abbrev bob_seat : Seat
bob_seat = record {
  member = record {
    chat_id = "talk";
    user_id = "bob";
    role = "member";
    can_send = true;
    joined_seq = 1;
    active = true;
  };
  device = record {
    id = "laptop";
    user_id = "bob";
    public_key = "key";
    signing_key = "";
    revoked = false;
  };
  user = record { id = "bob"; disabled = false };
}

bob_reads : find_live_seat sent_db bob "talk" ≡ some bob_seat
unfolding find_live_seat find_seat find_user find_device find_member persist_message settle
    persist_fresh append push_event insert_message run_hooks reply_hook forward_hook find_chat
    find_operation find_message bump_seq has_event
bob_reads = refl

talk_there : find_chat "talk" start_db.chats ≡ some talk
unfolding find_chat
talk_there = refl

abbrev passes_on : ProjectHook
passes_on id m = ok m

persist-view_example :
    view_message clear_engine reader (passes_on ∷ []) bob true sent_db "m1"
    ≡ ok (record sent_message { envelope = some (7 ∷ 8 ∷ []) })
persist-view_example =
    persist-view clear_engine number_codec reader hooks works start_db draft 100 (passes_on ∷ [])
      bob (7 ∷ 8 ∷ []) {s = bob_seat} sent_ok talk_there refl refl refl bob_reads (omega arith)
      (refl, tt) (enveloped refl refl refl)

abbrev without_laptop : Outcome Db
without_laptop = revoke_device works sent_db "bob" "laptop"

abbrev without_laptop_db : Db
without_laptop_db = value_or without_laptop start_db

laptop_revoked : without_laptop ≡ ok without_laptop_db
unfolding revoke_device set_revoked set_pending in_chat persist_message settle persist_fresh append
    push_event insert_message run_hooks reply_hook forward_hook find_seat find_user find_device
    find_member find_chat find_operation find_message bump_seq has_event
laptop_revoked = refl

revoke-withholds_example :
    (send_result
        (λ other k. view_message clear_engine reader [] other true without_laptop_db k)
        true
        without_laptop_db
        bob
        sent_message
        true
        true
      ≡ fail 404 "message not accessible")
    × (view_message clear_engine reader [] bob true without_laptop_db "m1"
        ≡ fail 404 "message not accessible")
    × (history clear_engine reader [] bob true without_laptop_db "talk" 4 100
        ≡ fail 403 "membership required")
revoke-withholds_example =
    revoke-withholds clear_engine reader [] works sent_db bob laptop_revoked sent_message true "m1"
      "talk" 4 100
