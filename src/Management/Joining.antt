-- ===== src/Management/Joining.antt =====
-- What a change of membership leaves: the row, and where the member's history begins.
use qgramm.Common.{
  ℕ, ◌≡◌, refl, sym, ap, ◌∙◌, subst, String, Bool, true, false, not, Option, none, ◌+◌, ◌⊎◌, ◌&&◌,
  ◌||◌, some, List, [], ◌∷◌, arith, any_row, str_eq, eq_refl, Bool-cases, inl, inr, ok, require,
  row_or, >>=-eq-ok, row_or-eq-ok, ok-injective,
}
use qgramm.Store.{
  Bytes, Db, Engine, Chat, Member, find_chat, find_member, append, written, push_event,
  append-Appended,
}
use qgramm.Management.{MemberInput, put_member, put_member_row, joined_at}
use qgramm.Management.Chats.{previous_member, rekeys, mark_pending, is_some}

find_member-put :
    (chat user : String) (input : MemberInput) (joined : ℕ) (ms : List Member)
    → (m : Member) × (find_member chat user (put_member_row chat user input joined ms) ≡ some m)
      × (m.joined_seq ≡ joined)
      × (m.active ≡ input.active)
      × (m.can_send ≡ input.can_send)
unfolding find_member put_member_row
find_member-put chat user input joined [] = (
  record {
    chat_id = chat;
    user_id = user;
    role = input.role;
    can_send = input.can_send;
    joined_seq = joined;
    active = input.active;
  },
  ground (arith, eq_refl chat, eq_refl user),
  refl,
  refl,
  refl,
)
find_member-put chat user input joined (x ∷ ms) =
    let (m, f, j, a, c) = find_member-put chat user input joined ms in
    elim (Bool-cases (str_eq x.chat_id chat && str_eq x.user_id user)) [
      | inl e ↦ (
        record x {
          role = input.role;
          can_send = input.can_send;
          joined_seq = joined;
          active = input.active;
        },
        ground (arith, e),
        refl,
        refl,
        refl,
      )
      | inr e ↦ (m, ground (arith, e, f), j, a, c)
    ]

-- Where the history of a member begins, from what was asked for, the chat's head and the row before.
pub data HistoryStart (input : MemberInput) (seq : ℕ) : Option Member → ℕ → Type 0 where
  from_start :
      {previous : Option Member} → input.allow_history ≡ true → HistoryStart input seq previous 1
  stays :
      {old : Member}
      → input.allow_history ≡ false
      → old.active ≡ true
      → input.active ≡ true
      → HistoryStart input seq (some old) old.joined_seq
  newly : input.allow_history ≡ false → HistoryStart input seq none (seq + 1)
  returns :
      {old : Member}
      → input.allow_history ≡ false
      → (old.active ≡ false) ⊎ (input.active ≡ false)
      → HistoryStart input seq (some old) (seq + 1)

either_inactive : (a b : Bool) → a && b ≡ false → (a ≡ false) ⊎ (b ≡ false)
either_inactive true b h = inr h
either_inactive false b h = inl refl

joined_at-HistoryStart :
    (input : MemberInput) (seq : ℕ) (previous : Option Member)
    → HistoryStart input seq previous (joined_at input seq previous)
unfolding joined_at
joined_at-HistoryStart input seq none =
    let starts : (n : ℕ)
        → joined_at input seq none ≡ n
        → HistoryStart input seq none n
        → HistoryStart input seq none (joined_at input seq none) =
      λ n same here. subst (HistoryStart input seq none) (sym same) here in
    elim (Bool-cases input.allow_history) [
      | inl q ↦ starts 1 (rw q refl) (from_start q)
      | inr q ↦ starts (seq + 1) (rw q refl) (newly q)
    ]
joined_at-HistoryStart input seq (some old) =
    let starts : (n : ℕ)
        → joined_at input seq (some old) ≡ n
        → HistoryStart input seq (some old) n
        → HistoryStart input seq (some old) (joined_at input seq (some old)) =
      λ n same here. subst (HistoryStart input seq (some old)) (sym same) here in
    elim (Bool-cases input.allow_history) [
      | inl q ↦ starts 1 (rw q refl) (from_start q)
      | inr q ↦ elim (Bool-cases (old.active && input.active)) [
        | inl both ↦
            starts old.joined_seq (rw (q, both) refl)
              (stays q (ground (arith, both)) (ground (arith, both)))
        | inr gone ↦
            starts (seq + 1) (rw (q, gone) refl)
              (returns q (either_inactive old.active input.active gone))
      ]
    ]

-- After a membership was put, the member is found with the flags that were asked for. The history
-- begins at 1 if that was asked for, where it began if an active member stays active, and else after the
-- head of the chat before the change.
pub put_member-joined :
    (e : Engine) (io : ℕ → Bool) (history_all : Bool) (db : Db) (chat user : String)
    (input : MemberInput) (body : Bytes) (now : ℕ) {db' : Db}
    → put_member e io history_all db chat user input body now ≡ ok db'
    → (c : Chat) × (find_chat chat db.chats ≡ some c)
      × ((m : Member) × (find_member chat user db'.members ≡ some m)
          × HistoryStart input c.seq (previous_member io db chat user) m.joined_seq
          × (m.active ≡ input.active)
          × (m.can_send ≡ input.can_send))
unfolding put_member push_event
put_member-joined e io history_all db chat user input body now {db'} h =
    let previous = previous_member io db chat user in
    let (_, _, h1) =
      >>=-eq-ok
        (require
          (str_eq input.role "owner" || str_eq input.role "admin" || str_eq input.role "member") 400
          "invalid role")
        _ h in
    let (_, _, h2) =
      >>=-eq-ok (require (not input.allow_history || history_all) 400 "past history disabled") _
        h1 in
    let (_, _, h3) = >>=-eq-ok (written (io 0)) _ h2 in
    let (_, _, h4) = >>=-eq-ok (require (io 1) 404 "chat not found") _ h3 in
    let (c, found, h5) = >>=-eq-ok (row_or (find_chat chat db.chats) 404 "chat not found") _ h4 in
    let (_, _, h6) =
      >>=-eq-ok
        (require (not (str_eq c.kind "direct") || is_some previous) 400 "direct membership fixed") _
        h5 in
    let (_, _, h7) =
      >>=-eq-ok (require (io 3 && any_row (λ u. str_eq u.id user) db.users) 400 "unknown user") _
        h6 in
    let (_, _, h8) = >>=-eq-ok (written (io 4 || not (rekeys c input previous))) _ h7 in
    let mid = record db {
      members = put_member_row chat user input (joined_at input c.seq previous) db.members;
      chats = mark_pending (rekeys c input previous) chat db.chats;
    } in
    let (r, ha, h9) =
      >>=-eq-ok (append e (io 5) (io 6) mid chat "membership.changed" "" (some body) now) _ h8 in
    let (_, _, h10) = >>=-eq-ok (written (io 7)) _ h9 in
    let a =
      append-Appended e (io 5) (io 6) mid chat "membership.changed" "" (some body) now r.0 r.1 ha in
    let members : mid.members ≡ db'.members =
      ap (λ x. x.members) (sym a.pushed ∙ ok-injective _ _ h10) in
    let (m, f, j, act, s) =
      find_member-put chat user input (joined_at input c.seq previous) db.members in
    (
      c,
      row_or-eq-ok _ _ _ found,
      (
        m,
        subst (λ ms. find_member chat user ms ≡ some m) members f,
        rw j (joined_at-HistoryStart input c.seq previous),
        act,
        s,
      ),
    )
