-- ===== src/Messages/Withheld.antt =====
-- What a device that was revoked can still read: projectMessages, ViewMessage, history and sendResult.
use qgramm.Common.{
  ℕ, ◌≡◌, refl, String, Bool, true, false, List, [], ◌∷◌, none, Option-cases, inl, inr, ok, fail,
}
use qgramm.Store.{Db, Engine, Identity, StoredMessage, find_chat, find_live_seat, find_message}
use qgramm.Messages.{
  Message, Reader, ProjectHook, readable, readable_rows, unique, project_messages, view_message,
  history, accessible, send_result,
}
use qgramm.Management.{revoke_device}
use qgramm.Management.Revocation.{revoke_device-none}

module _ (e : Engine) (x : Reader) (hooks : List ProjectHook) (id : Identity) (db : Db)
    (unseated : (chat : String) → find_live_seat db id chat ≡ none) where
  readable-none : (row : StoredMessage) → readable e x hooks id db row ≡ none
  unfolding readable
  readable-none row = elim (Option-cases (find_chat row.chat_id db.chats)) [
    | inl q ↦ rw (q, readable) refl
    | inr (c, q) ↦ rw (q, unseated row.chat_id, readable) refl
  ]

  readable_rows-nil : (rows : List StoredMessage) → readable_rows e x hooks id db rows ≡ []
  unfolding readable_rows
  readable_rows-nil [] = refl
  readable_rows-nil (row ∷ rows) = rw (readable-none row) (readable_rows-nil rows)

  view-refused :
      (message : String)
      → view_message e x hooks id true db message ≡ fail 404 "message not accessible"
  unfolding view_message project_messages unique
  view-refused message = rw (readable_rows-nil _) refl

  history-refused :
      (chat : String) (after limit : ℕ)
      → history e x hooks id true db chat after limit ≡ fail 403 "membership required"
  unfolding history
  history-refused chat after limit = elim (Option-cases (find_chat chat db.chats)) [
    | inl q ↦ rw q refl
    | inr (c, q) ↦ rw (q, unseated chat) refl
  ]

  not_accessible : (message : String) → accessible db id message ≡ false
  unfolding accessible
  not_accessible message = elim (Option-cases (find_message message db.messages)) [
    | inl q ↦ rw (q, accessible) refl
    | inr (m, q) ↦ rw (q, unseated m.chat_id, accessible) refl
  ]

  result-refused :
      (m : Message) (minimal : Bool)
      → send_result (λ reader k. view_message e x hooks reader true db k) true db id m minimal true
        ≡ fail 404 "message not accessible"
  unfolding send_result
  result-refused m true = rw (not_accessible m.id) refl
  result-refused m false = view-refused m.id

-- After a device was revoked, the result of an operation that it sent before is withheld from it, whether
-- a receipt or the message is asked for, and so are every message and every chat's history, as long as
-- the read gets through.
pub revoke-withholds :
    (e : Engine) (x : Reader) (hooks : List ProjectHook) (io : ℕ → Bool) (db : Db) (id : Identity)
    {db' : Db}
    → revoke_device io db id.user_id id.device_id ≡ ok db'
    → (m : Message) (minimal : Bool) (message chat : String) (after limit : ℕ)
    → (send_result (λ reader k. view_message e x hooks reader true db' k) true db' id m minimal true
        ≡ fail 404 "message not accessible")
      × (view_message e x hooks id true db' message ≡ fail 404 "message not accessible")
      × (history e x hooks id true db' chat after limit ≡ fail 403 "membership required")
revoke-withholds e x hooks io db id {db'} h m minimal message chat after limit =
    let gone = λ (c : String). revoke_device-none io db id.user_id id.device_id c h in
    (
      result-refused e x hooks id db' gone m minimal,
      view-refused e x hooks id db' gone message,
      history-refused e x hooks id db' gone chat after limit,
    )
