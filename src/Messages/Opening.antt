-- ===== src/Messages/Opening.antt =====
-- What prepareMessage makes of an input: the opened payload, the hooks, the features it may use.
use qgramm.Common.{
  ℕ, ◌==◌, ◌⊎◌, inl, inr, eq_iff, str_eq, Option, Bool-cases, ◌∷◌, ◌≡◌, refl, subst, String, Bool,
  true, false, not, ◌&&◌, none, some, List, [], arith, ok, require, row_or, >>=-eq-ok,
  require-eq-ok, row_or-eq-ok, ok-injective,
}
use qgramm.Store.{Bytes, Identity}
use qgramm.Messages.Prepare.{supported, is_some, is_empty}
use qgramm.Messages.{MessageInput, Codec, PrepareHook, Limits, open_payload, run_prepare}

-- What a request's input opens to: in a basic chat the payload of its envelope, which comes without MLS; in
-- a chat that runs MLS the input as it is, with an MLS message of the chat's epoch and no envelope.
pub data IsOpened (k : Codec) (id : Identity) (chat mode : String) (epoch : ℕ)
    (input : MessageInput) : MessageInput → Type 0 where
  from_envelope :
      {env payload : Bytes}
      → str_eq mode "basic" ≡ true
      → input.envelope ≡ some env
      → str_eq input.mls "" ≡ true
      → k.open_envelope env chat id input.operation_id ≡ some payload
      → IsOpened k id chat mode epoch input (record input { payload = payload })
  from_mls :
      str_eq mode "basic" ≡ false
      → input.envelope ≡ none
      → str_eq input.mls "" ≡ false
      → input.epoch ≡ epoch
      → IsOpened k id chat mode epoch input input

-- Each prepare hook accepts what the one before made.
pub data IsHooked (id : Identity) (chat : String)
    : List PrepareHook → MessageInput → MessageInput → Type 0 where
  no_more : {input : MessageInput} → IsHooked id chat [] input input
  one_more :
      {hook : PrepareHook} {hooks : List PrepareHook} {input next ready : MessageInput}
      → hook id chat input ≡ ok next
      → IsHooked id chat hooks next ready
      → IsHooked id chat (hook ∷ hooks) input ready

-- The build has every feature that the input uses.
abbrev pub IsFeatured : Limits → MessageInput → Type 0
IsFeatured l input =
    ((input.reply_to ≡ "") ⊎ (l.reply ≡ true))
    × ((input.forward_from ≡ "") ⊎ (l.forward ≡ true))
    × ((input.attachments ≡ []) ⊎ (l.files ≡ true))

no_value : {A : Type 0} (o : Option A) → not (is_some o) ≡ true → o ≡ none
no_value none h = refl
no_value (some a) h = cc

pub open_payload-IsOpened :
    (k : Codec) (id : Identity) (chat mode : String) (epoch : ℕ) (input : MessageInput)
    {opened : MessageInput}
    → open_payload k id chat mode epoch input ≡ ok opened
    → IsOpened k id chat mode epoch input opened
unfolding open_payload
open_payload-IsOpened k id chat mode epoch input {opened} h =
    elim (Bool-cases (str_eq mode "basic")) [
      | inl basic ↦
          let (env, he, h1) =
            >>=-eq-ok (row_or input.envelope 400 "basic HPKE envelope required") _
              (rw basic at h) in
          let (_, bare, h2) =
            >>=-eq-ok (require (str_eq input.mls "") 400 "basic HPKE envelope required") _ h1 in
          let (payload, hp, h3) =
            >>=-eq-ok
              (row_or (k.open_envelope env chat id input.operation_id) 400
                "invalid encrypted envelope")
              _ h2 in
          subst (IsOpened k id chat mode epoch input) (ok-injective _ _ h3) (
            from_envelope basic (row_or-eq-ok _ _ _ he) (require-eq-ok _ _ _ bare)
              (row_or-eq-ok _ _ _ hp))
      | inr other ↦
          let (_, fits, h1) =
            >>=-eq-ok
              (require
                (not (is_some input.envelope)
                  && not (str_eq input.mls "")
                  && (input.epoch == epoch))
                409 "invalid MLS message or epoch")
              _ (rw other at h) in
          let holds = require-eq-ok _ _ _ fits in
          subst (IsOpened k id chat mode epoch input) (ok-injective _ _ h1) (
            from_mls other (no_value input.envelope (ground (arith, holds))) (ground (arith, holds))
              (ground (arith, holds)))
    ]

pub run_prepare-IsHooked :
    (id : Identity) (chat : String) (hooks : List PrepareHook) (input : MessageInput)
    {ready : MessageInput}
    → run_prepare hooks id chat input ≡ ok ready
    → IsHooked id chat hooks input ready
unfolding run_prepare
run_prepare-IsHooked id chat [] input h =
    subst (IsHooked id chat [] input) (ok-injective _ _ h) no_more
run_prepare-IsHooked id chat (hook ∷ hooks) input h =
    let (next, first, rest) = >>=-eq-ok (hook id chat input) _ h in
    one_more first (run_prepare-IsHooked id chat hooks next rest)

unused_or : (s : String) (b : Bool) → (not (str_eq s "") && not b) ≡ false → (s ≡ "") ⊎ (b ≡ true)
unused_or s true h = inr refl
unused_or s false h = inl (ground (arith, h, eq_iff s ""))

empty_or :
    {A : Type 0} (xs : List A) (b : Bool)
    → (not (is_empty xs) && not b) ≡ false
    → (xs ≡ []) ⊎ (b ≡ true)
empty_or [] b h = inl refl
empty_or (x ∷ xs) true h = inr refl
empty_or (x ∷ xs) false h = cc

pub supported-IsFeatured :
    (l : Limits) (input : MessageInput) → supported l input ≡ true → IsFeatured l input
supported-IsFeatured l input h = (
  unused_or input.reply_to l.reply (ground (arith, h)),
  unused_or input.forward_from l.forward (ground (arith, h)),
  empty_or input.attachments l.files (ground (arith, h)),
)
