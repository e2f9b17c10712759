-- ===== src/Mls/OneTransition.antt =====
-- A chat has at most one open MLS transition.
use qgramm.Common.{
  ℕ, ◌+◌, ◌≤◌, ◌≡◌, refl, ◌∙◌, String, Bool, false, List, [], ◌∷◌, ◌++◌, some, arith, any_row,
  eq_iff, if◌then◌else◌, Bool-cases, inl, inr, ok, >>=-eq-ok,
}
use qgramm.Store.{Identity, Engine}
use qgramm.Mls.Effects.{
  submit-parts, welcome_one-keeps, upload-row, confirm-keeps, claim-transitions,
}
use qgramm.Mls.{
  Relay, Transition, Suite, Hooks, is_open, CommitInput, WelcomeInput, ConfirmInput, welcome_one,
  welcome_all, insert_transition, submit_commit, confirm_row, confirm_epoch, Step, elsewhere,
  uploaded, claimed, submitted, confirmed, Run, rests, goes_on,
}

-- The number of open transitions of a chat.
unfoldable pub open_count : String → List Transition → ℕ
open_count chat [] = 0
open_count chat (t ∷ ts) = (if is_open chat t then 1 else 0) + open_count chat ts

abbrev pub IsSingle : Relay → Type 0
IsSingle r = (chat : String) → open_count chat r.transitions ≤ 1

open_count-append :
    (k : String) (ts : List Transition) (t : Transition)
    → open_count k (ts ++ t ∷ []) ≡ open_count k ts + (if is_open k t then 1 else 0)
unfolding open_count
open_count-append k [] t = ground arith
open_count-append k (x ∷ ts) t = ground (arith, open_count-append k ts t)

open_count-none :
    (k : String) (ts : List Transition) → any_row (is_open k) ts ≡ false → open_count k ts ≡ 0
unfolding open_count
open_count-none k [] h = refl
open_count-none k (t ∷ ts) h = ground (arith, open_count-none k ts)

open_count-confirm_row :
    (k transition : String) (ts : List Transition)
    → open_count k (confirm_row transition ts) ≤ open_count k ts
unfolding open_count confirm_row
open_count-confirm_row k transition [] = omega arith
open_count-confirm_row k transition (t ∷ ts) =
    ground (arith, open_count-confirm_row k transition ts)

insert-IsSingle :
    (writes : Bool) (t : Transition) (r : Relay) {r' : Relay}
    → insert_transition writes t r ≡ some r'
    → IsSingle r
    → IsSingle r'
unfolding insert_transition
insert-IsSingle writes t r {r'} h single k =
    elim (Bool-cases (any_row (is_open t.chat_id) r.transitions)) [
      | inl e ↦ absurd (ground (arith, h, e))
      | inr e ↦
          let grown : r'.transitions ≡ r.transitions ++ t ∷ [] = ground (arith, h, e) in
          rw grown (
            ground (
              arith,
              open_count-append k r.transitions t,
              open_count-none t.chat_id r.transitions e,
              eq_iff t.chat_id k,
              single k,
            ))
    ]

module _ (e : Engine) (s : Suite) (io : ℕ → Bool) (fresh : String → String) (chat : String)
    (now : ℕ) where
  welcome_all-transitions :
      (r : Relay) (epoch : ℕ) (targets : List String) (items : List WelcomeInput) {r' : Relay}
      → welcome_all e s io fresh chat now r epoch targets items ≡ ok r'
      → r'.transitions ≡ r.transitions
  unfolding welcome_all
  welcome_all-transitions r epoch targets [] h = ground arith
  welcome_all-transitions r epoch targets (item ∷ items) h =
      let (r1, h0, h1) = >>=-eq-ok (welcome_one e s io fresh chat now r epoch targets item) _ h in
      welcome_all-transitions r1 epoch (item.device_id ∷ targets) items h1
      ∙ (welcome_one-keeps e s io fresh chat now r epoch targets item h0).1

  submit-IsSingle :
      (hooks : Hooks) (r : Relay) (id : Identity) (input : CommitInput) (transition : String)
      {r' : Relay}
      → submit_commit e s hooks io fresh r id chat input transition now ≡ ok r'
      → IsSingle r
      → IsSingle r'
  submit-IsSingle hooks r id input transition h single k =
      let (t, r1, r2, n, i, w, _, transitions, _, _, _) =
        submit-parts e s io fresh chat now hooks r id input transition h in
      rw (transitions ∙ welcome_all-transitions r1 n [] input.welcomes w)
        (insert-IsSingle (io 2) t r i single k)

confirm-IsSingle :
    (e : Engine) (s : Suite) (hooks : Hooks) (io init_io : ℕ → Bool) (r : Relay) (chat : String)
    (input : ConfirmInput) (now : ℕ) {r' : Relay}
    → confirm_epoch e s hooks io init_io r chat input now ≡ ok r'
    → IsSingle r
    → IsSingle r'
confirm-IsSingle e s hooks io init_io r chat input now h single k =
    let (_, transitions) = confirm-keeps e s hooks io init_io r chat input now h in
    elim transitions [
      | inl same ↦ rw same (single k)
      | inr closed ↦
          rw closed
            (omega (arith, open_count-confirm_row k input.transition_id r.transitions, single k))
    ]

module _ (e : Engine) (s : Suite) (hooks : Hooks) where
  Step-IsSingle : (r r' : Relay) → Step e s hooks r r' → IsSingle r → IsSingle r'
  Step-IsSingle r r' (elsewhere _ db) single k = single k
  Step-IsSingle r r' (uploaded io _ id encoded now _ key h) single k =
      (let (_, _, _, same) = upload-row e s io r id encoded now h in rw same (single k))
  Step-IsSingle r r' (claimed io _ id chat target _ c h) single k =
      rw (claim-transitions e s io r id chat target h) (single k)
  Step-IsSingle r r' (submitted io fresh _ id chat input transition now _ h) single k =
      submit-IsSingle e s io fresh chat now hooks r id input transition h single k
  Step-IsSingle r r' (confirmed io init_io _ chat input now _ h) single k =
      confirm-IsSingle e s hooks io init_io r chat input now h single k

  -- Whatever uploads, claims, commits and confirmations succeeded, in any order and with any failing
  -- storage calls in between, and whatever else changed in the accounts and chats, no chat comes to have
  -- more than one transition that is not confirmed, if none had at the start.
  pub Run-IsSingle : (r r' : Relay) → Run e s hooks r r' → IsSingle r → IsSingle r'
  Run-IsSingle r r' (rests _) single k = single k
  Run-IsSingle r r' (goes_on _ m _ past step) single k =
      Step-IsSingle m r' step (Run-IsSingle r m past single) k
