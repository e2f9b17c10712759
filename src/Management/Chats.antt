-- ===== src/Management/Chats.antt =====
-- CreateChat and putMember.
use qgramm.Common.{
  ℕ, ◌+◌, String, Bool, true, false, not, ◌&&◌, ◌||◌, Option, none, some, List, [], ◌∷◌, ◌++◌,
  length, any_row, update_rows, str_eq, ◌==◌, leb, if◌then◌else◌, Outcome, ok, require, row_or,
  ◌>>=◌, ◌>>◌,
}
use qgramm.Store.{Bytes, User, Chat, Member, Db, Engine, find_chat, find_member, append, written}
use qgramm.Management.Names.{valid_id}

pub record ChatInput : Type 0 where
  pub id : String
  pub mode : String
  pub members : List String

pub record MemberInput : Type 0 where
  pub role : String
  pub can_send : Bool
  pub active : Bool
  pub allow_history : Bool

-- The loop over `seen`: every member is a valid id that did not come before.
unfoldable pub all_distinct : List String → List String → Bool
all_distinct seen [] = true
all_distinct seen (user ∷ users) =
    let rest = all_distinct (user ∷ seen) users in
    not (any_row (str_eq user) seen) && valid_id user && rest

abbrev member_row : String → String → String → Member
member_row chat user role = record {
  chat_id = chat;
  user_id = user;
  role = role;
  can_send = true;
  joined_seq = 1;
  active = true;
}

-- The INSERTs of the members, whose foreign key asks for the user; `io n` is the n-th.
unfoldable pub add_members :
    (ℕ → Bool) → List User → String → ℕ → List String → Outcome (List Member)
add_members io users chat n [] = ok []
add_members io users chat n (user ∷ rest) = do
  require (io n && any_row (λ u. str_eq u.id user) users) 400 "unknown member"
  ms ← add_members io users chat (n + 1) rest
  ok (member_row chat user (if n == 0 then "owner" else "member") ∷ ms)

abbrev or_else : String → String → String
or_else s d = if str_eq s "" then d else s

-- `fresh` is the uuid for a chat without an id, `e2ee` the feature, `io` and `adds` the statements.
unfoldable pub create_chat :
    (ℕ → Bool) → (ℕ → Bool) → Bool → String → Db → String → ChatInput → ℕ → Outcome Db
unfolding all_distinct add_members
create_chat io adds e2ee fresh db kind input now =
    let k = or_else input.id fresh in
    let mode = or_else input.mode "basic" in
    do
      require
          (valid_id k
            && leb 2 (length input.members)
            && not (str_eq kind "direct" && not (length input.members == 2)))
          400 "invalid chat or member count"
      require (str_eq mode "basic" || (str_eq mode "e2ee" && e2ee)) 400
          "unsupported encryption mode"
      require (all_distinct [] input.members) 400 "duplicate or invalid member"
      written (io 0)
      require (io 1 && not (any_row (λ c. str_eq c.id k) db.chats)) 409 "chat already exists"
      ms ← add_members adds db.users k 0 input.members
      written (io 2)
      ok (record db {
        chats =
            db.chats
            ++ record {
              id = k;
              kind = kind;
              mode = mode;
              seq = 0;
              epoch = 0;
              pending = str_eq mode "e2ee";
              created_at = now;
            }
              ∷ [];
        members = db.members ++ ms;
      })

-- Where the history that the member sees begins.
unfoldable pub joined_at : MemberInput → ℕ → Option Member → ℕ
joined_at input seq none = if input.allow_history then 1 else seq + 1
joined_at input seq (some m) =
    if input.allow_history then 1 else if m.active && input.active then m.joined_seq else seq + 1

-- INSERT ... ON CONFLICT(chat_id,user_id) DO UPDATE SET role, can_send, joined_seq, active
unfoldable pub put_member_row : String → String → MemberInput → ℕ → List Member → List Member
put_member_row chat user input joined [] =
    record {
      chat_id = chat;
      user_id = user;
      role = input.role;
      can_send = input.can_send;
      joined_seq = joined;
      active = input.active;
    }
    ∷ []
put_member_row chat user input joined (m ∷ ms) =
    let rest = put_member_row chat user input joined ms in
    if str_eq m.chat_id chat && str_eq m.user_id user
    then record m {
      role = input.role;
      can_send = input.can_send;
      joined_seq = joined;
      active = input.active;
    }
      ∷ ms
    else m ∷ rest

abbrev same_bool : Bool → Bool → Bool
same_bool true b = b
same_bool false b = not b

-- A change of who is active makes an encrypted chat wait for new keys.
abbrev pub rekeys : Chat → MemberInput → Option Member → Bool
rekeys c input none = str_eq c.mode "e2ee"
rekeys c input (some m) = str_eq c.mode "e2ee" && not (same_bool m.active input.active)

abbrev pub mark_pending : Bool → String → List Chat → List Chat
mark_pending false chat cs = cs
mark_pending true chat cs =
    update_rows (λ c. str_eq c.id chat) (λ c. record c { pending = true }) cs

abbrev pub is_some {ℓ} : {A : Type ℓ} → Option A → Bool
is_some none = false
is_some (some a) = true

-- The SELECT of the previous membership; its failure reads as no membership.
abbrev pub previous_member : (ℕ → Bool) → Db → String → String → Option Member
previous_member io db chat user = if io 2 then find_member chat user db.members else none

-- `history_all` is Policy.History == "all", `body` the event's encoded data.
unfoldable pub put_member :
    Engine → (ℕ → Bool) → Bool → Db → String → String → MemberInput → Bytes → ℕ → Outcome Db
unfolding put_member_row
put_member e io history_all db chat user input body now =
    let previous = previous_member io db chat user in
    do
      require (str_eq input.role "owner" || str_eq input.role "admin" || str_eq input.role "member")
          400 "invalid role"
      require (not input.allow_history || history_all) 400 "past history disabled"
      written (io 0)
      require (io 1) 404 "chat not found"
      c ← row_or (find_chat chat db.chats) 404 "chat not found"
      require (not (str_eq c.kind "direct") || is_some previous) 400 "direct membership fixed"
      require (io 3 && any_row (λ u. str_eq u.id user) db.users) 400 "unknown user"
      written (io 4 || not (rekeys c input previous))
      r ←
          append e (io 5) (io 6)
            (record db {
              members = put_member_row chat user input (joined_at input c.seq previous) db.members;
              chats = mark_pending (rekeys c input previous) chat db.chats;
            })
            chat "membership.changed" "" (some body) now
      written (io 7)
      ok r.1
