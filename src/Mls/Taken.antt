-- ===== src/Mls/Taken.antt =====
-- Which key packages are free, and what a claim takes.
use qgramm.Common.{
  ℕ, ◌≡◌, ◌⊎◌, refl, sym, ap, subst, ◌∙◌, String, Bool, true, false, ◌&&◌, ◌||◌, List, [], ◌∷◌,
  ◌++◌, Option, none, some, some-injective, arith, any_row, str_eq, eq_refl, Bool-cases, inl, inr,
  ok, require, row_or, >>=-eq-ok, row_or-eq-ok,
}
use qgramm.Store.{Identity, Engine, member, find_chat}
use qgramm.Mls.{
  live_device, Relay, KeyPackage, Suite, Claimed, handed_out, retired, is_unclaimed, first_of,
  oldest_unclaimed, claim_row, claim_package, use_package,
}

-- The package that a claim is of.
abbrev pub package_of : Claimed → String
package_of (handed_out k wire) = k
package_of (retired k) = k

-- The packages with an identifier that nobody claimed.
unfoldable pub is_free : String → List KeyPackage → Bool
is_free k = any_row (λ p. str_eq p.id k && is_unclaimed p)

or_true : (b : Bool) {c : Bool} → c ≡ true → (b || c) ≡ true
or_true true h = refl
or_true false h = h

head_free :
    (q : KeyPackage) (ps : List KeyPackage) → is_unclaimed q ≡ true → is_free q.id (q ∷ ps) ≡ true
unfolding is_free
head_free q ps h = rw (eq_refl q.id, h) refl

first_of-chosen :
    (p : KeyPackage) (o : Option KeyPackage) → (first_of p o ≡ p) ⊎ (o ≡ some (first_of p o))
first_of-chosen p none = inl refl
first_of-chosen p (some q) = ground arith

-- The oldest one is in the table, and nobody claimed it.
oldest_unclaimed-is_free :
    (device : String) (ps : List KeyPackage) {p : KeyPackage}
    → oldest_unclaimed device ps ≡ some p
    → is_free p.id ps ≡ true
unfolding oldest_unclaimed is_free
oldest_unclaimed-is_free device [] h = cc
oldest_unclaimed-is_free device (q ∷ ps) {p} h =
    elim (Bool-cases (str_eq q.device_id device && is_unclaimed q)) [
      | inr other ↦ or_true _ (oldest_unclaimed-is_free device ps (rw other at h))
      | inl mine ↦
          let same : first_of q (oldest_unclaimed device ps) ≡ p =
            some-injective _ _ (rw mine at h) in
          elim (first_of-chosen q (oldest_unclaimed device ps)) [
            | inl this ↦
                subst (λ v. is_free v.id (q ∷ ps) ≡ true) (sym this ∙ same)
                  (head_free q ps (ground (arith, mine)))
            | inr later ↦ or_true _ (oldest_unclaimed-is_free device ps (later ∙ ap some same))
          ]
    ]

-- A claim takes every package with its identifier.
pub claim_row-is_free :
    (k chat : String) (ps : List KeyPackage) → is_free k (claim_row k chat ps) ≡ false
unfolding is_free claim_row
claim_row-is_free k chat [] = refl
claim_row-is_free k chat (p ∷ ps) = ground (arith, claim_row-is_free k chat ps)

-- A claim of another package leaves it as it was.
pub claim_row-keeps :
    (k j chat : String) (ps : List KeyPackage)
    → is_free k ps ≡ false
    → is_free k (claim_row j chat ps) ≡ false
unfolding is_free claim_row
claim_row-keeps k j chat [] h = refl
claim_row-keeps k j chat (p ∷ ps) h = ground (arith, claim_row-keeps k j chat ps)

pub is_free-append :
    (k : String) (ps : List KeyPackage) (p : KeyPackage)
    → is_free k ps ≡ false
    → str_eq p.id k ≡ false
    → is_free k (ps ++ p ∷ []) ≡ false
unfolding is_free
is_free-append k [] p h d = ground arith
is_free-append k (q ∷ ps) p h d = ground (arith, is_free-append k ps p)

pub is_free-use_package :
    (k j : String) (ps : List KeyPackage) → is_free k (use_package j ps) ≡ is_free k ps
unfolding is_free use_package
is_free-use_package k j [] = refl
is_free-use_package k j (p ∷ ps) = ground (arith, is_free-use_package k j ps)

unfoldable pub is_listed : String → List KeyPackage → Bool
is_listed k = any_row (λ p. str_eq p.id k)

-- A package that the table has, and that somebody claimed.
abbrev pub IsTaken : String → Relay → Type 0
IsTaken k r = (is_listed k r.packages ≡ true) × (is_free k r.packages ≡ false)

pub is_free-is_listed :
    (k : String) (ps : List KeyPackage) → is_free k ps ≡ true → is_listed k ps ≡ true
unfolding is_free is_listed
is_free-is_listed k [] h = h
is_free-is_listed k (p ∷ ps) h = ground (arith, is_free-is_listed k ps)

pub is_listed-append :
    (k : String) (ps : List KeyPackage) (p : KeyPackage)
    → is_listed k ps ≡ true
    → is_listed k (ps ++ p ∷ []) ≡ true
unfolding is_listed
is_listed-append k [] p h = cc
is_listed-append k (q ∷ ps) p h = ground (arith, is_listed-append k ps p)

pub is_listed-claim_row :
    (k j chat : String) (ps : List KeyPackage) → is_listed k (claim_row j chat ps) ≡ is_listed k ps
unfolding is_listed claim_row
is_listed-claim_row k j chat [] = refl
is_listed-claim_row k j chat (p ∷ ps) = ground (arith, is_listed-claim_row k j chat ps)

pub is_listed-use_package :
    (k j : String) (ps : List KeyPackage) → is_listed k (use_package j ps) ≡ is_listed k ps
unfolding is_listed use_package
is_listed-use_package k j [] = refl
is_listed-use_package k j (p ∷ ps) = ground (arith, is_listed-use_package k j ps)

-- A successful claim: a package that nobody had claimed, and its row.
pub claim-row :
    (e : Engine) (s : Suite) (io : ℕ → Bool) (r : Relay) (id : Identity) (chat target : String)
    {r' : Relay} {c : Claimed}
    → claim_package e s io r id chat target ≡ ok (r', c)
    → (is_free (package_of c) r.packages ≡ true)
      × (r'.packages ≡ claim_row (package_of c) chat r.packages)
unfolding claim_package
claim-row e s io r id chat target {r'} {c} h =
    let (m, _, h1) =
      >>=-eq-ok (row_or (member r.db id.user_id chat) 403 "chat access denied") _ h in
    let (_, _, h2) = >>=-eq-ok (require (m.can_send && io 0) 403 "chat access denied") _ h1 in
    let (_, _, h3) = >>=-eq-ok (require (io 1) 500 "transaction unavailable") _ h2 in
    let (_, _, h4) =
      >>=-eq-ok
        (row_or (live_device r.db target chat) 403 "target device not authorized for E2EE chat") _
        h3 in
    let (d, _, h5) =
      >>=-eq-ok
        (row_or (find_chat chat r.db.chats) 403 "target device not authorized for E2EE chat") _
        h4 in
    let (_, _, h6) =
      >>=-eq-ok
        (require (io 2 && str_eq d.mode "e2ee") 403 "target device not authorized for E2EE chat") _
        h5 in
    let (p, hp, h7) =
      >>=-eq-ok (row_or (oldest_unclaimed target r.packages) 409 "no unclaimed KeyPackage") _ h6 in
    let free = oldest_unclaimed-is_free target r.packages (row_or-eq-ok _ _ _ hp) in
    let named : package_of c ≡ p.id = ground arith in
    let row : r'.packages ≡ claim_row p.id chat r.packages = ground arith in
    (rw named free, rw named row)
