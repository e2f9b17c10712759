-- ===== src/Tests/Connecting.antt =====
-- Connections, tickets and requests at concrete inputs.
use qgramm.Common.{
  ApiError, err, ℕ, ◌+◌, ◌≤◌, ◌≡◌, refl, some-injective, String, true, false, List, [], ◌∷◌, some,
  any_row, str_eq, ◌==◌, ok, fail, arith,
}
use qgramm.Store.{
  Db, Seat, Identity, find_seat, find_live_seat, find_user, find_device, find_chat, find_member,
  append, push_event, bump_seq, has_event,
}
use qgramm.Management.{revoke_device, set_revoked, set_pending, in_chat}
use qgramm.Realtime.{
  Connection, Hub, Ticket, poll, device_active, redeem, take_place, admit, register, leave, mark,
  signal, flush_pages, head_of,
}
use qgramm.Realtime.Wakeups.{Turn, rests, goes_on, signals, signalling_one, mark-wakes}
use qgramm.Realtime.Heads.{seq_of}
use qgramm.Realtime.Polling.{poll-wakes}
use qgramm.Realtime.Replayed.{AllNotified}
use qgramm.Realtime.Delivery.{IsDelivery, read_at, flush-IsDelivery}
use qgramm.Realtime.Tickets.{at_once, admit-once}
use qgramm.Realtime.Connections.{keys, is_distinct}
use qgramm.Realtime.Places.{Lobby, Changes, IsCounted, admitted, opened, left, Changes-IsCounted}
use qgramm.Gate.{Admission, arrive, Claims, authorize}
use qgramm.Gate.Bounded.{Traffic, idle, arrives, Traffic-bounds}
use qgramm.Gate.Revoked.{revoke-refuses}
use qgramm.Tests.Fixture.{value_or, works, clear_engine, start_db, alice, bob}
use qgramm.Tests.Reading.{
  reader, echo, fifth_db, sixth_db, sixth-IsLater, sixth-IsJournal, sixth-IsGapless,
}

abbrev quiet : Connection
quiet = record { key = 1; id = alice; wake = false; pending = []; is_done = false }

abbrev resting : Turn
resting = record { conn = quiet; signalling = 0; woken = false; taken = [] }

abbrev marked : Turn
marked = record resting { conn = mark "talk" quiet; signalling = 1 }

abbrev signalled : Turn
signalled = record marked { conn = signal (mark "talk" quiet); signalling = 0 }

mark-wakes_example :
    (signalled.conn.wake ≡ true) × (any_row (str_eq "talk") signalled.conn.pending ≡ true)
unfolding mark signal
mark-wakes_example =
    mark-wakes "talk" resting signalled
      (goes_on signalling_one marked marked signalled (rests marked) (signals marked 0 refl) refl)
      refl refl refl

abbrev hub : Hub
hub = record {
  connections = quiet ∷ [];
  subscribers = record { chat = "talk"; conn = 1 } ∷ [];
  active = 1;
  replay_heads = record { chat = "talk"; seq = 3 } ∷ [];
}

head_seen : (i : ℕ) → seq_of (find_chat "talk" start_db.chats) ≡ some 4
unfolding find_chat
head_seen i = refl

poll-wakes_example :
    ((poll works (λ i. start_db) hub).subscribers ≡ hub.subscribers)
    × AllNotified "talk" (poll works (λ i. start_db) hub)
unfolding head_of
poll-wakes_example =
    poll-wakes works (λ i. start_db) hub "talk" (some 4) (λ i. refl) head_seen refl refl

bob_joined :
    (i : ℕ) (s : Seat) → find_live_seat fifth_db bob "talk" ≡ some s → s.member.joined_seq ≤ 5
unfolding find_live_seat find_seat find_user find_device find_member append push_event bump_seq
    has_event find_chat
bob_joined i s h = rw⁻¹ (some-injective _ s h) (omega arith)

flush-IsDelivery_example :
    IsDelivery clear_engine reader echo [] bob "talk"
      (λ i. works)
      (λ i. fifth_db)
      (λ i. sixth_db)
      4
      10
      (flush_pages
        (read_at clear_engine reader echo [] bob "talk"
          (λ i. works)
          (λ i. fifth_db)
          (λ i. sixth_db)
          4)
        works
        10
        0
        4
        [])
flush-IsDelivery_example =
    flush-IsDelivery clear_engine reader echo [] bob "talk" (λ i. works) (λ i. fifth_db)
      (λ i. sixth_db) 4 works (λ i. sixth-IsJournal) (λ i. sixth-IsGapless) (λ i. sixth-IsLater)
      bob_joined

abbrev tickets : List Ticket
tickets = record { hash = "t1"; device_id = "phone"; user_id = "alice"; expires = 130 } ∷ []

abbrev same : String → String
same s = s

abbrev empty_hub : Hub
empty_hub = record { connections = []; subscribers = []; active = 0; replay_heads = [] }

abbrev placed : Hub
placed = record empty_hub { active = 1 }

admitted_ok : (admit 2 [] same works start_db "" "t1" 110 tickets empty_hub).1 ≡ ok (alice, placed)
unfolding admit redeem device_active take_place find_device find_user
admitted_ok = refl

admit-once_example :
    (x : ApiError) × ((admit 2 [] same works start_db "" "t1" 120
        (admit 2 [] same works start_db "" "t1" 110 tickets empty_hub).0
        empty_hub).1
      ≡ err x)
admit-once_example =
    admit-once 2 [] same works works start_db start_db "" "" "t1" 110 120 tickets _ empty_hub
      empty_hub admitted_ok (at_once _) (omega arith)

abbrev lobby : Lobby
lobby = record { hub = empty_hub; upgrading = 0 }

abbrev knocking : Lobby
knocking = record { hub = placed; upgrading = 1 }

abbrev inside : Lobby
inside = record { hub = register 7 alice placed; upgrading = 0 }

abbrev emptied : Lobby
emptied = record inside { hub = leave 7 ("talk" ∷ []) inside.hub }

start-IsCounted : IsCounted 2 lobby
unfolding keys is_distinct
start-IsCounted = record { counted = refl; distinct = refl; within = omega arith }

place_taken : take_place 2 empty_hub ≡ ok placed
unfolding take_place
place_taken = refl

seven_new : any_row (λ j. j == 7) (keys placed.connections) ≡ false
unfolding keys
seven_new = refl

seven_there : any_row (λ j. j == 7) (keys inside.hub.connections) ≡ true
unfolding keys register
seven_there = refl

Changes-IsCounted_example : IsCounted 2 emptied
Changes-IsCounted_example =
    Changes-IsCounted 2 lobby emptied
      (Changes.goes_on lobby inside emptied
        (Changes.goes_on lobby knocking inside
          (Changes.goes_on lobby lobby knocking (Changes.rests lobby)
            (admitted lobby placed place_taken))
          (opened knocking 0 7 alice refl seven_new))
        (left inside 7 ("talk" ∷ []) seven_there))
      start-IsCounted

abbrev none_yet : Admission
none_yet = record { active = 0; pending = 0; admitted = 0; rejected = 0 }

abbrev crowded : Admission
crowded = (arrive 1 1 (arrive 1 1 (arrive 1 1 none_yet).1).1).1

three_arrived : Traffic 1 1 3 0 crowded
three_arrived = arrives 2 0 _ (arrives 1 0 _ (arrives 0 0 none_yet idle))

Traffic-bounds_example :
    (crowded.active ≤ 1)
    × (crowded.pending ≤ 1)
    × (3 ≡ crowded.admitted + crowded.rejected + crowded.pending)
    × (crowded.admitted ≡ crowded.active + 0)
Traffic-bounds_example = Traffic-bounds 1 1 3 0 crowded three_arrived

abbrev revoked_db : Db
revoked_db = value_or (revoke_device works start_db "bob" "laptop") start_db

revoked_ok : revoke_device works start_db "bob" "laptop" ≡ ok revoked_db
unfolding revoke_device set_revoked set_pending in_chat
revoked_ok = refl

abbrev bob_claims : Claims
bob_claims = record { subject = "bob"; device = "laptop"; issued = some 100; expires = some 200 }

revoke-refuses_example :
    (authorize (λ t. some bob_claims) true revoked_db "token" (λ id. ok id)
      ≡ fail 401 "authentication required")
    × (device_active true revoked_db (record { user_id = "bob"; device_id = "laptop" }) ≡ false)
revoke-refuses_example =
    revoke-refuses works start_db "bob" "laptop" (λ t. some bob_claims) true "token" bob_claims
      Identity (λ id. ok id) revoked_ok refl refl refl
