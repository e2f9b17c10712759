-- ===== src/Tests/Fixture.antt =====
-- Two users with a device each in one direct chat, and stand-ins for the other packages.
use qgramm.Common.{ℕ, String, Bool, true, false, [], ◌∷◌, none, some, Outcome, ok, err}
use qgramm.Store.{Device, Chat, Member, Db, Identity, Engine}
use qgramm.Messages.{MessageInput, Message, Draft}

abbrev pub value_or : {A : Type 0} → Outcome A → A → A
value_or (ok a) d = a
value_or (err e) d = d

abbrev pub works : ℕ → Bool
works n = true

-- A seal that keeps the bytes.
abbrev pub clear_engine : Engine
clear_engine = record { seal = λ b a. some b; open_sealed = λ b a. some b }

abbrev pub alice : Identity
alice = record { user_id = "alice"; device_id = "phone" }

abbrev pub bob : Identity
bob = record { user_id = "bob"; device_id = "laptop" }

abbrev member_of : String → Member
member_of user = record {
  chat_id = "talk";
  user_id = user;
  role = "member";
  can_send = true;
  joined_seq = 1;
  active = true;
}

abbrev device_of : Identity → Device
device_of id = record {
  id = id.device_id;
  user_id = id.user_id;
  public_key = "key";
  signing_key = "";
  revoked = false;
}

abbrev pub talk : Chat
talk = record {
  id = "talk";
  kind = "direct";
  mode = "basic";
  seq = 4;
  epoch = 0;
  pending = false;
  created_at = 10;
}

abbrev pub start_db : Db
start_db = record {
  users = record { id = "alice"; disabled = false } ∷ record { id = "bob"; disabled = false } ∷ [];
  devices = device_of alice ∷ device_of bob ∷ [];
  chats = talk ∷ [];
  members = member_of "alice" ∷ member_of "bob" ∷ [];
  messages = [];
  events = [];
  operations = [];
  cursors = [];
  reactions = [];
  hidden = [];
}

abbrev pub hello : MessageInput
hello = record {
  operation_id = "op1";
  envelope = none;
  mls = "";
  epoch = 0;
  attachments = [];
  reply_to = "";
  forward_from = "";
  payload = [];
}

abbrev pub draft : Draft
draft = record {
  id = alice;
  chat = "talk";
  input = hello;
  mode = "basic";
  epoch = 0;
  hash = "h1";
  message_id = "m1";
  stored = 7 ∷ 8 ∷ [];
  metadata = [];
}

abbrev pub no_message : Message
no_message = record {
  reactions = [];
  id = "";
  chat_id = "";
  sender = "";
  device_id = "";
  operation_id = "";
  seq = 0;
  revision = 0;
  deleted = false;
  mode = "";
  epoch = 0;
  created_at = 0;
  envelope = none;
  mls = "";
  attachments = [];
  reply_to = "";
  forward_from = "";
}
