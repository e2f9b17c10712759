-- ===== src/Tests/Sending.antt =====
-- Messages at concrete inputs.
use qgramm.Common.{
  ◌+◌, ◌≡◌, refl, Bool, true, false, All, List, [], ◌∷◌, none, some, Outcome, ok, fail,
}
use qgramm.Store.{
  Db, IsJournal, find_seat, find_user, find_device, find_chat, find_member, find_message,
  find_operation, head_seq, append, append_total, push_event, bump_seq, has_event,
}
use qgramm.Messages.{
  Message, Codec, Draft, Hook, persist_message, settle, persist_fresh, run_hooks, reply_hook,
  forward_hook, insert_message, message_row, operation_row,
}
use qgramm.Messages.Access.{IsAccepted}
use qgramm.Messages.Idempotency.{persist_next}
use qgramm.Messages.Retry.{again, persist_retry, persist_conflict, persist-IsJournal}
use qgramm.Tests.Fixture.{value_or, works, clear_engine, start_db, draft, no_message, talk}

-- The message that the draft becomes; its encoding is its number.
abbrev pub sent_message : Message
sent_message = record no_message {
  id = "m1";
  chat_id = "talk";
  sender = "alice";
  device_id = "phone";
  operation_id = "op1";
  seq = 5;
  revision = 1;
  mode = "basic";
  created_at = 100;
}

abbrev pub number_codec : Codec
number_codec = record {
  hash_input = λ c i. "h1";
  encode_message = λ m. m.seq ∷ [];
  decode_message = λ b. some sent_message;
  encode_metadata = λ m. [];
  open_envelope = λ b c i o. some b;
}

abbrev pub hooks : List Hook
hooks = reply_hook ∷ forward_hook ∷ []

abbrev sent : Outcome (Db × Message × Bool)
sent = persist_message clear_engine number_codec hooks works start_db draft 100

abbrev pub sent_db : Db
sent_db = (value_or sent (start_db, no_message, true)).0

pub sent_ok : sent ≡ ok (sent_db, sent_message, false)
unfolding persist_message settle persist_fresh append push_event insert_message run_hooks reply_hook
    forward_hook find_seat find_user find_device find_member find_chat find_operation find_message
    bump_seq has_event
sent_ok = refl

persist_next_example :
    IsAccepted start_db draft
    × All (λ hook. hook sent_db draft.id "talk" sent_message ≡ ok tt) hooks
    × (find_operation "phone" "op1" start_db.operations ≡ none)
    × (sent_message.seq ≡ head_seq "talk" start_db.chats + 1)
    × (head_seq "talk" sent_db.chats ≡ sent_message.seq)
    × (find_message "m1" sent_db.messages ≡ some (message_row draft 5 100))
    × (find_operation "phone" "op1" sent_db.operations
        ≡ some (operation_row number_codec draft sent_message 100))
persist_next_example = persist_next clear_engine number_codec hooks works start_db draft 100 sent_ok

persist_retry_example :
    persist_message clear_engine number_codec hooks works sent_db (again draft "m2" (9 ∷ []) []) 200
    ≡ ok (sent_db, sent_message, true)
persist_retry_example =
    persist_retry clear_engine number_codec hooks works start_db draft 100 sent_ok refl works 200
      "m2" (9 ∷ []) [] refl refl

-- The same operation for another text, prepared under a new message id.
abbrev other_draft : Draft
other_draft = record draft {
  message_id = "m2";
  hash = "h2";
  stored = 9 ∷ [];
  input = record (draft.input) { payload = 9 ∷ [] };
}

persist_conflict_example :
    persist_message clear_engine number_codec hooks works sent_db other_draft 200
    ≡ fail 409 "operation conflict"
persist_conflict_example =
    persist_conflict clear_engine number_codec hooks works start_db draft 100 sent_ok works 200
      other_draft refl refl refl refl refl refl refl

persist-IsJournal_example : IsJournal sent_db
persist-IsJournal_example =
    persist-IsJournal clear_engine number_codec hooks works start_db draft 100 tt sent_ok

append_total_example :
    append clear_engine true true start_db "talk" "membership.changed" "" (some (7 ∷ [])) 50
    ≡ ok (5, push_event start_db "talk" 5 "membership.changed" "" (some (7 ∷ [])) 50)
unfolding find_chat
append_total_example =
    append_total clear_engine start_db "talk" "membership.changed" "" (some (7 ∷ [])) 50 talk tt
      refl refl
