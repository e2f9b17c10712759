-- ===== src/Tests/Relaying.antt =====
-- The MLS relay at concrete inputs: a commit by alice's phone is submitted and confirmed, and two packages
-- of bob's laptop are claimed.
use qgramm.Common.{
  ℕ, zero, suc, ◌≡◌, ◌≢◌, refl, String, true, false, List, [], ◌∷◌, Option, none, some, ApiError,
  Outcome, ok, err, str_eq, if◌then◌else◌, arith,
}
use qgramm.Store.{
  Bytes, find_seat, find_live_seat, find_user, find_device, find_chat, find_member, member, append,
  push_event, bump_seq, has_event,
}
use qgramm.Mls.{
  e2ee_prepare, Relay, RelayMember, KeyPackage, Suite, Hooks, CommitMessage, Context, ConfirmInput,
  at_epoch, Claimed, handed_out, retired, find_group, find_roster, live_device, same_bytes,
  check_members, all_covered, validate_roster, insert_roster, save_roster, valid_context,
  find_sender, insert_transition, welcome_all, set_barrier, check_commit, submit_commit,
  open_transition, set_context, confirm_row, confirm_transition, advance_epoch, check_confirm,
  confirm_epoch, oldest_unclaimed, claim_row, claim_package, rests, goes_on, submitted, confirmed,
}
use qgramm.Mls.Epochs.{IsAdvance, confirm-IsAdvance}
use qgramm.Mls.OneTransition.{open_count, IsSingle, Run-IsSingle}
use qgramm.Mls.Barrier.{submit-bars}
use qgramm.Mls.Taken.{package_of}
use qgramm.Mls.OneTime.{claims-differ}
use qgramm.Tests.Fixture.{value_or, works, clear_engine, start_db, alice, bob, talk, hello}

abbrev zeros : ℕ → Bytes
zeros zero = []
zeros (suc n) = 0 ∷ zeros n

abbrev decoded : String → Option Bytes
decoded s =
    if str_eq s "group"
    then some (1 ∷ [])
    else if str_eq s "signature"
    then some (zeros 64)
    else some (zeros 32)

abbrev member_commit : CommitMessage
member_commit = record {
  is_member_commit = true;
  epoch = 0;
  group_id = 1 ∷ [];
  leaf_index = 0;
  verify = λ k c. true;
}

abbrev first_context : Context
first_context = record {
  is_suite1 = true;
  group_id = 1 ∷ [];
  epoch = 1;
  tree_hash_size = 32;
  transcript_hash_size = 32;
  canonical = true;
}

abbrev suite : Suite
suite = record {
  decode_base64 = decoded;
  digest = λ b. "digest";
  parse_private = λ b. none;
  parse_commit = λ b. some (some member_commit);
  parse_context = λ b. some first_context;
  parse_welcome = λ b. none;
  package_ref = λ b. b;
  package_identity = λ b. some ("laptop", []);
  binding = λ c i o. [];
  verify_proof = λ k p s. true;
  encode_proof = λ c g p e h x r. [];
  encode_pending = λ t e h. [];
  encode_confirmed = λ e t r. [];
}

abbrev agree : Hooks
agree = record { begins = λ db c. true; commits = λ db c w. true }

abbrev offered : String → ℕ → KeyPackage
offered k at = record {
  id = k;
  device_id = "laptop";
  payload = [];
  claimed_chat = none;
  used = false;
  created_at = at;
}

abbrev start : Relay
start = record {
  db = record start_db { chats = record talk { mode = "e2ee" } ∷ [] };
  groups = record { chat_id = "talk"; group_id = 1 ∷ []; context = [] } ∷ [];
  roster = record { chat_id = "talk"; device_id = "phone"; leaf_index = 0 } ∷ [];
  packages = offered "k2" 20 ∷ offered "k1" 10 ∷ [];
  controls = [];
  transitions = [];
}

abbrev committed : Outcome Relay
committed =
    submit_commit clear_engine suite agree works (λ s. s) start alice "talk"
      (record { commit = "commit"; welcomes = [] }) "t1" 100

abbrev waiting : Relay
waiting = value_or committed start

committed_ok : committed ≡ ok waiting
unfolding submit_commit check_commit find_sender find_group find_roster insert_transition
    welcome_all set_barrier same_bytes append push_event bump_seq has_event find_chat find_live_seat
    find_seat find_user find_device find_member member
committed_ok = refl

abbrev both : List RelayMember
both =
    record { device_id = "phone"; leaf_index = 0 }
    ∷ record { device_id = "laptop"; leaf_index = 1 }
    ∷ []

abbrev approval : ConfirmInput
approval = record {
  transition_id = "t1";
  group_id = "group";
  group_context = "context";
  previous_epoch = at_epoch 0;
  epoch = 1;
  signer_device = "phone";
  signature = "signature";
  roster = both;
}

abbrev approved : Outcome Relay
approved = confirm_epoch clear_engine suite agree works works waiting "talk" approval 200

abbrev advanced : Relay
advanced = value_or approved start

approved_ok : approved ≡ ok advanced
unfolding confirm_epoch check_confirm validate_roster check_members all_covered live_device
    valid_context open_transition find_group find_roster confirm_transition save_roster
    insert_roster set_context confirm_row advance_epoch same_bytes append push_event bump_seq
    has_event find_chat find_live_seat find_seat find_user find_device find_member member
    submit_commit check_commit find_sender insert_transition welcome_all set_barrier
approved_ok = refl

confirm-IsAdvance_example :
    IsAdvance clear_engine suite agree works waiting "talk" approval 0 advanced
confirm-IsAdvance_example =
    confirm-IsAdvance clear_engine suite agree works waiting "talk" approval 0 works 200 approved_ok
      refl

start-IsSingle : IsSingle start
unfolding open_count
start-IsSingle chat = omega arith

Run-IsSingle_example : IsSingle advanced
Run-IsSingle_example =
    Run-IsSingle clear_engine suite agree start advanced
      (goes_on start waiting advanced
        (goes_on start start waiting (rests start) (
          submitted works (λ s. s) start alice "talk" (record { commit = "commit"; welcomes = [] })
            "t1" 100 waiting committed_ok))
        (confirmed works works waiting "talk" approval 200 advanced approved_ok))
      start-IsSingle

abbrev no_claim : Relay × Claimed
no_claim = (start, retired "")

abbrev first_claim : Relay × Claimed
first_claim = value_or (claim_package clear_engine suite works start alice "talk" "laptop") no_claim

first_claim_ok :
    claim_package clear_engine suite works start alice "talk" "laptop"
    ≡ ok (first_claim.0, first_claim.1)
unfolding claim_package live_device oldest_unclaimed claim_row find_chat find_live_seat find_seat
    find_user find_device find_member member
first_claim_ok = refl

abbrev second_claim : Relay × Claimed
second_claim =
    value_or (claim_package clear_engine suite works first_claim.0 alice "talk" "laptop") no_claim

second_claim_ok :
    claim_package clear_engine suite works first_claim.0 alice "talk" "laptop"
    ≡ ok (second_claim.0, second_claim.1)
unfolding claim_package live_device oldest_unclaimed claim_row find_chat find_live_seat find_seat
    find_user find_device find_member member
second_claim_ok = refl

claims-differ_example : package_of second_claim.1 ≢ package_of first_claim.1
claims-differ_example =
    claims-differ clear_engine suite agree works works start first_claim.0 first_claim.0
      second_claim.0 alice alice "talk" "talk" "laptop" "laptop" first_claim.1 second_claim.1
      first_claim_ok (rests first_claim.0) second_claim_ok

-- The oldest package goes first.
claimed_in_order : (first_claim.1 ≡ handed_out "k1" []) × (second_claim.1 ≡ handed_out "k2" [])
unfolding claim_package live_device oldest_unclaimed claim_row find_chat find_live_seat find_seat
    find_user find_device find_member member
claimed_in_order = (refl, refl)

start_talk : find_chat "talk" start.db.chats ≡ some (record talk { mode = "e2ee" })
unfolding find_chat
start_talk = refl

submit-bars_example :
    (x : ApiError) × (e2ee_prepare suite works waiting bob "talk" (record hello { mls = "message" })
      ≡ err x)
submit-bars_example =
    submit-bars clear_engine suite works (λ s. s) "talk" 100 agree start alice
      (record { commit = "commit"; welcomes = [] }) "t1" (record talk { mode = "e2ee" }) works bob
      (record hello { mls = "message" }) committed_ok start_talk refl
