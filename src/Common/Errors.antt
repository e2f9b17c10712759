-- ===== src/Common/Errors.antt =====
-- A call's result: a value, or the APIError{Status, Message} that it returns early with.
use Prim.Native.Nat.{ℕ}
use Prim.Native.String.{String}
use mathlib.Core.Path.{◌≡◌, refl, ap₂}
use mathlib.Core.Logic.{◌⊎◌, inl, inr}
use mathlib.Core.Bool.{Bool, true, false}
use mathlib.Core.List.{List, [], ◌∷◌, map}
use mathlib.Core.Option.{Option, none, some}

pub record ApiError : Type 0 where
  pub status : ℕ
  pub message : String

pub data Outcome {ℓ} (A : Type ℓ) : Type ℓ where
  ok : A → Outcome A
  err : ApiError → Outcome A

abbrev pub fail {ℓ} : {A : Type ℓ} → ℕ → String → Outcome A
fail s m = err (record { status = s; message = m })

-- What follows a successful call runs on its value; an early return skips it.
infixl 5 ◌>>=◌ ◌>>◌
abbrev pub ◌>>=◌ {ℓ κ} : {S : Type ℓ} {R : Type κ} → Outcome S → (S → Outcome R) → Outcome R
err failure >>= continue_with = err failure
ok value >>= continue_with = continue_with value

abbrev pub ◌>>◌ {κ} : {R : Type κ} → Outcome (Unit {0}) → Outcome R → Outcome R
check >> rest = check >>= (λ passed. rest)

-- Continue where the condition holds, and return early where it does not.
abbrev pub require : Bool → ℕ → String → Outcome (Unit {0})
require true s m = ok tt
require false s m = fail s m

-- The value of a query that has one row, or an early return.
abbrev pub row_or {ℓ} : {A : Type ℓ} → Option A → ℕ → String → Outcome A
row_or (some a) s m = ok a
row_or none s m = fail s m

module _ {ℓ κ} {S : Type ℓ} {R : Type κ} where
  -- A chain that succeeds had a first call that succeeded.
  pub >>=-eq-ok :
      (first : Outcome S) (step : S → Outcome R) {answer : R}
      → (first >>= step) ≡ ok answer
      → (value : S) × (first ≡ ok value) × (step value ≡ ok answer)
  >>=-eq-ok (err failure) step h = cc
  >>=-eq-ok (ok value) step h = (value, refl, h)

pub require-eq-ok : (b : Bool) (s : ℕ) (m : String) {u : Unit {0}} → require b s m ≡ ok u → b ≡ true
require-eq-ok true s m h = refl
require-eq-ok false s m h = cc

pub row_or-eq-ok {ℓ} :
    {A : Type ℓ} (o : Option A) (s : ℕ) (m : String) {a : A} → row_or o s m ≡ ok a → o ≡ some a
row_or-eq-ok none s m h = cc
row_or-eq-ok (some b) s m h = cc

pub Outcome-cases {ℓ} :
    {A : Type ℓ} (o : Outcome A) → ((a : A) × (o ≡ ok a)) ⊎ ((e : ApiError) × (o ≡ err e))
Outcome-cases (ok a) = inl (a, refl)
Outcome-cases (err e) = inr (e, refl)

pub ok-injective {ℓ} : {A : Type ℓ} (a b : A) → ok a ≡ ok b → a ≡ b
ok-injective a b h = cc

-- A loop that returns at the first error, and collects the results.
abbrev pub traverse {ℓ κ} : {S : Type ℓ} {R : Type κ} → (S → Outcome R) → List S → Outcome (List R)
traverse call [] = ok []
traverse call (item ∷ items) =
    call item >>= λ result. traverse call items >>= λ results. ok (result ∷ results)

-- What each call keeps of its item, the loop keeps of the list.
pub traverse-map {ℓ κ μ} :
    {S : Type ℓ} {R : Type κ} {V : Type μ} (call : S → Outcome R) (before : S → V) (after : R → V)
    → ((item : S) (result : R) → call item ≡ ok result → after result ≡ before item)
    → (items : List S) {results : List R} → traverse call items ≡ ok results
    → map after results ≡ map before items
traverse-map call before after keeps [] {results} h = rw⁻¹ (ok-injective _ _ h) refl
traverse-map call before after keeps (item ∷ items) {results} h =
    let (result, one, h1) = >>=-eq-ok (call item) _ h in
    let (rest, others, h2) = >>=-eq-ok (traverse call items) _ h1 in
    rw⁻¹ (ok-injective _ _ h2) (
      ap₂ (λ v vs. v ∷ vs) (keeps item result one)
        (traverse-map call before after keeps items others))
