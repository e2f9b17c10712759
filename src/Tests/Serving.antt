-- ===== src/Tests/Serving.antt =====
-- Receipts, management, mutations and capacity at concrete inputs.
use qgramm.Common.{◌*◌, ◌≤◌, ◌<◌, ◌≡◌, ◌⊎◌, refl, true, false, [], ◌∷◌, none, some, ok}
use qgramm.Store.{
  Db, Chat, Member, StoredMessage, find_seat, find_live_seat, find_user, find_device, find_chat,
  find_member, find_message, find_operation, append, push_event, bump_seq, has_event,
}
use qgramm.Messages.{
  MessageInput, Codec, Limits, prepare_message, answer_prepared, prepare_fresh, open_payload,
  run_prepare,
}
use qgramm.Messages.Admission.{IsPrepared, prepare_message-IsPrepared}
use qgramm.Management.{
  MemberInput, revoke_device, set_revoked, set_pending, in_chat, put_member, put_member_row,
  joined_at,
}
use qgramm.Management.Revocation.{revoke_device-none}
use qgramm.Management.Joining.{HistoryStart, put_member-joined}
use qgramm.Mutations.{
  mutate, fresh_mutation, mutation_row, find_target, allowed, reaction_fn, put_reaction, react,
}
use qgramm.Mutations.Once.{react_again}
use qgramm.Capacity.{Resources, Capacity, derive_capacity}
use qgramm.Capacity.Derived.{derive_capacity-bounds}
use qgramm.Tests.Fixture.{value_or, works, clear_engine, start_db, alice, hello, draft}

revoke_device-none_example :
    find_live_seat (value_or (revoke_device works start_db "alice" "phone") start_db) alice "talk"
    ≡ none
unfolding revoke_device set_revoked set_pending in_chat
revoke_device-none_example = revoke_device-none works start_db "alice" "phone" "talk" refl

abbrev guest : MemberInput
guest = record { role = "member"; can_send = false; active = true; allow_history = false }

put_member-joined_example :
    (c : Chat) × (find_chat "talk" start_db.chats ≡ some c)
    × ((m : Member) × (find_member "talk" "bob"
            (value_or
              (put_member clear_engine works true start_db "talk" "bob" guest [] 60)
              start_db).members
          ≡ some m)
        × HistoryStart guest c.seq (find_member "talk" "bob" start_db.members) m.joined_seq
        × (m.active ≡ true)
        × (m.can_send ≡ false))
unfolding put_member put_member_row joined_at append push_event bump_seq has_event find_chat
    find_member
put_member-joined_example =
    put_member-joined clear_engine works true start_db "talk" "bob" guest [] 60 refl

abbrev posted : StoredMessage
posted = record {
  id = "m0";
  chat_id = "talk";
  sender = "bob";
  device_id = "laptop";
  operation_id = "op0";
  seq = 2;
  revision = 1;
  deleted = false;
  payload = 1 ∷ [];
  metadata = [];
  epoch = 0;
  created_at = 20;
}

abbrev posted_db : Db
posted_db = record start_db { messages = posted ∷ [] }

abbrev reacted : Db
reacted =
    value_or (react clear_engine works 3 posted_db alice "talk" "m0" "op7" "h7" 1 false [] 70)
      start_db

react_again_example :
    react clear_engine works 3 reacted alice "talk" "m0" "op7" "h7" 1 false [] 90 ≡ ok reacted
unfolding react mutate fresh_mutation mutation_row find_target allowed reaction_fn put_reaction
    find_operation find_message find_live_seat find_seat find_user find_device find_member find_chat
    append push_event bump_seq has_event
react_again_example =
    react_again clear_engine 3 posted_db alice "talk" "m0" "op7" "h7" 1 false [] works works 70 90
      refl refl

abbrev unset : Capacity
unset = record {
  expected_concurrent_users = 100;
  workers = 0;
  max_connections = 0;
  queue_depth = 0;
}

abbrev small_host : Resources
small_host = record { cpus = 2; memory_bytes = 536870912 }

derive_capacity-bounds_example :
    let d = derive_capacity unset small_host in
    (1 ≤ d.workers)
    × (1 ≤ d.max_connections)
    × (1 ≤ d.queue_depth)
    × (unset.max_connections ≡ 0 → 100 < d.max_connections)
    × (unset.queue_depth ≡ 0 → d.queue_depth ≤ 64)
    × (unset.queue_depth ≡ 0
        → (d.queue_depth ≡ 1) ⊎ (d.max_connections * (d.queue_depth * 65536) ≤ 134217728))
derive_capacity-bounds_example = derive_capacity-bounds unset small_host

abbrev plain_codec : Codec
plain_codec = record {
  hash_input = λ c i. "h1";
  encode_message = λ m. [];
  decode_message = λ b. none;
  encode_metadata = λ m. [];
  open_envelope = λ b c i o. some b;
}

abbrev lax : Limits
lax = record { reply = true; forward = true; files = true; max_message_bytes = 10 }

abbrev enveloped : MessageInput
enveloped = record hello { envelope = some (7 ∷ 8 ∷ []) }

prepare_message-IsPrepared_example :
    IsPrepared clear_engine plain_codec lax [] start_db alice "talk" enveloped "m1" draft
unfolding prepare_message answer_prepared prepare_fresh open_payload run_prepare find_operation
    find_live_seat find_seat find_user find_device find_member find_chat
prepare_message-IsPrepared_example =
    prepare_message-IsPrepared clear_engine plain_codec lax [] start_db alice "talk" enveloped "m1"
      (λ s. true) works refl refl
