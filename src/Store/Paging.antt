-- ===== src/Store/Paging.antt =====
-- ORDER BY key LIMIT n over the rows of a table whose keys differ: the row with the least key above
-- the cursor, and so on from there.
use qgramm.Common.{
  ℕ, zero, suc, ◌-◌, ◌==◌, ==_iff, ◌≤◌, ◌<◌, ◌≡◌, refl, ap₂, map, leb, ◌&&◌, Bool, true, false,
  List, [], ◌∷◌, Option, none, some, some-injective, arith, All, All-map, ltb, if◌then◌else◌,
  Bool-cases, Option-cases, length, inl, inr,
}

-- The n numbers after a cursor.
abbrev pub numbers_after : ℕ → ℕ → List ℕ
numbers_after cursor zero = []
numbers_after cursor (suc n) = suc cursor ∷ numbers_after (suc cursor) n

module _ {A : Type 0} (key : A → ℕ) (test : A → Bool) where
  abbrev pub nearer : A → Option A → A
  nearer x none = x
  nearer x (some y) = if ltb (key y) (key x) then y else x

  unfoldable pub least_above : ℕ → List A → Option A
  least_above n [] = none
  least_above n (x ∷ xs) =
      let rest = least_above n xs in
      if test x then (if ltb n (key x) then some (nearer x rest) else rest) else rest

  unfoldable pub page : ℕ → ℕ → List A → List A
  page zero n xs = []
  page (suc limit) n xs = elim (least_above n xs) [ none ↦ [] | some x ↦ x ∷ page limit (key x) xs ]

  -- A row that the test accepts and that lies above the cursor.
  abbrev pub Fits : ℕ → A → Type 0
  Fits n x = (test x ≡ true) × (n < key x)

  -- No accepted row above the cursor lies below this key.
  abbrev pub IsLeast : ℕ → ℕ → A → Type 0
  IsLeast n k y = test y ≡ true → n < key y → k ≤ key y

  nearer-Fits :
      (n : ℕ) (x : A) (o : Option A)
      → Fits n x
      → ((y : A) → o ≡ some y → Fits n y)
      → Fits n (nearer x o)
  nearer-Fits n x none f g = f
  nearer-Fits n x (some y) f g = elim (Bool-cases (ltb (key y) (key x))) [
    | inl e ↦ rw e (g y refl)
    | inr e ↦ rw e f
  ]

  pub least_above-Fits : (n : ℕ) (xs : List A) {x : A} → least_above n xs ≡ some x → Fits n x
  unfolding least_above
  least_above-Fits n [] h = cc
  least_above-Fits n (y ∷ ys) {x} h = elim (Bool-cases (test y)) [
    | inr e ↦ least_above-Fits n ys (rw e at h)
    | inl e ↦ elim (Bool-cases (ltb n (key y))) [
      | inr f ↦ least_above-Fits n ys (rw f at (rw e at h))
      | inl f ↦
          let s : nearer y (least_above n ys) ≡ x = some-injective _ _ (rw f at (rw e at h)) in
          rw⁻¹ s (
            nearer-Fits n y (least_above n ys) (e, ground (arith, f))
              (λ z q. least_above-Fits n ys q))
    ]
  ]

  nearer-All :
      (P : A → Type 0) (y : A) (o : Option A) {x : A}
      → P y
      → ((z : A) → o ≡ some z → P z)
      → nearer y o ≡ x
      → P x
  nearer-All P y none a g h = rw⁻¹ h a
  nearer-All P y (some z) a g h = elim (Bool-cases (ltb (key z) (key y))) [
    | inl e ↦ rw⁻¹ (rw e at h) (g z refl)
    | inr e ↦ rw⁻¹ (rw e at h) a
  ]

  -- What the answer says of every row: none is accepted above the cursor, or none below the answer.
  abbrev pub Least : ℕ → List A → Option A → Type 0
  Least n xs none = All (λ y. test y ≡ true → key y ≤ n) xs
  Least n xs (some x) = All (IsLeast n (key x)) xs

  nearer-le : (y x : A) → (key (nearer y (some x)) ≤ key y) × (key (nearer y (some x)) ≤ key x)
  nearer-le y x = elim (Bool-cases (ltb (key x) (key y))) [
    | inl g ↦ rw g ((ground (arith, g)), omega arith)
    | inr g ↦ rw g (omega arith, (ground (arith, g)))
  ]

  abbrev choose : ℕ → A → Option A → Option A
  choose n y o = if test y then (if ltb n (key y) then some (nearer y o) else o) else o

  choose-Least :
      (n : ℕ) (y : A) (ys : List A) (o : Option A) → Least n ys o → Least n (y ∷ ys) (choose n y o)
  choose-Least n y ys none h = elim (Bool-cases (test y)) [
    | inr e ↦ rw e ((λ t. ground (arith, e, t)), h)
    | inl e ↦ elim (Bool-cases (ltb n (key y))) [
      | inl f ↦
          rw e
            (rw f ((λ t m. omega arith), All-map _ _ ys (λ z g t m. absurd (omega (arith, g t))) h))
      | inr f ↦ rw e (rw f ((λ t. ground (arith, f)), h))
    ]
  ]
  choose-Least n y ys (some x) h = elim (Bool-cases (test y)) [
    | inr e ↦ rw e ((λ t. ground (arith, e, t)), h)
    | inl e ↦ elim (Bool-cases (ltb n (key y))) [
      | inr f ↦ rw e (rw f ((λ t m. ground (arith, f)), h))
      | inl f ↦
          let (ly, lx) = nearer-le y x in
          rw e (rw f ((λ t m. ly), All-map _ _ ys (λ z q t m. omega (arith, q t m, lx)) h))
    ]
  ]

  pub least_above-Least : (n : ℕ) (xs : List A) → Least n xs (least_above n xs)
  unfolding least_above
  least_above-Least n [] = tt
  least_above-Least n (y ∷ ys) = choose-Least n y ys (least_above n ys) (least_above-Least n ys)

  pub least_above-IsLeast :
      (n : ℕ) (xs : List A) {x : A} → least_above n xs ≡ some x → All (IsLeast n (key x)) xs
  least_above-IsLeast n xs h = rw h at (least_above-Least n xs)

  pub least_above-none :
      (n : ℕ) (xs : List A) → least_above n xs ≡ none → All (λ y. test y ≡ true → key y ≤ n) xs
  least_above-none n xs h = rw h at (least_above-Least n xs)

  -- Some accepted row holds this key.
  unfoldable pub has_key : ℕ → List A → Bool
  has_key k [] = false
  has_key k (x ∷ xs) =
      let rest = has_key k xs in if test x then (if key x == k then true else rest) else rest

  All-has_key :
      (P : A → Type 0) (k : ℕ) (xs : List A)
      → has_key k xs ≡ true
      → All P xs
      → (x : A) × (test x ≡ true) × (key x ≡ k) × P x
  unfolding has_key
  All-has_key P k [] h a = cc
  All-has_key P k (x ∷ xs) h a = elim (Bool-cases (test x)) [
    | inr e ↦ All-has_key P k xs (rw e at h) a.1
    | inl e ↦ elim (Bool-cases (key x == k)) [
      | inl f ↦ (x, e, (==_iff (key x) k).0 f, a.0)
      | inr f ↦ All-has_key P k xs (rw f at (rw e at h)) a.1
    ]
  ]

  -- The next key is there: it is the one that is found.
  pub least_above-next :
      (n : ℕ) (xs : List A)
      → has_key (suc n) xs ≡ true
      → (x : A) × (least_above n xs ≡ some x) × (test x ≡ true) × (key x ≡ suc n)
  least_above-next n xs h = elim (Option-cases (least_above n xs)) [
    | inl e ↦
        let (y, t, k, bound) = All-has_key _ (suc n) xs h (least_above-none n xs e) in
        absurd (omega (arith, bound t))
    | inr (x, e) ↦
        let (y, t, k, bound) = All-has_key _ (suc n) xs h (least_above-IsLeast n xs e) in
        let (tx, above) = least_above-Fits n xs e in
        (x, e, tx, omega (arith, bound t (omega arith)))
  ]

  least_above-All :
      (P : A → Type 0) (n : ℕ) (xs : List A) {x : A} → All P xs → least_above n xs ≡ some x → P x
  unfolding least_above
  least_above-All P n [] a h = cc
  least_above-All P n (y ∷ ys) {x} a h = elim (Bool-cases (test y)) [
    | inr e ↦ least_above-All P n ys a.1 (rw e at h)
    | inl e ↦ elim (Bool-cases (ltb n (key y))) [
      | inr f ↦ least_above-All P n ys a.1 (rw f at (rw e at h))
      | inl f ↦
          nearer-All P y (least_above n ys) a.0 (λ z q. least_above-All P n ys a.1 q)
            (some-injective _ _ (rw f at (rw e at h)))
    ]
  ]

  nothing_above :
      (n : ℕ) (xs : List A) → All (λ y. test y ≡ true → key y ≤ n) xs → least_above n xs ≡ none
  nothing_above n xs b = elim (Option-cases (least_above n xs)) [
    | inl e ↦ e
    | inr (x, e) ↦
        let (tx, above) = least_above-Fits n xs e in
        absurd (omega (arith, least_above-All _ n xs b e tx))
  ]

  pub page-some :
      (limit n : ℕ) (xs : List A) {x : A}
      → least_above n xs ≡ some x
      → page (suc limit) n xs ≡ x ∷ page limit (key x) xs
  unfolding page
  page-some limit n xs h = rw (h, page) refl

  pub page-none : (limit n : ℕ) (xs : List A) → least_above n xs ≡ none → page (suc limit) n xs ≡ []
  unfolding page
  page-none limit n xs h = rw (h, page) refl

  -- The rows of a page: each key is one above the key before it.
  abbrev pub IsRun : ℕ → List A → Type 0
  IsRun n [] = Unit
  IsRun n (x ∷ xs) = (test x ≡ true) × (key x ≡ suc n) × IsRun (key x) xs

  -- Every key from the cursor to the head is there.
  abbrev pub IsDense : ℕ → ℕ → List A → Type 0
  IsDense n head xs = (k : ℕ) → n < k → k ≤ head → has_key k xs ≡ true

  page-zero-IsRun :
      (n head : ℕ) (xs : List A)
      → IsRun n (page zero n xs)
        × (length (page zero n xs) ≡ (if ltb zero (head - n) then zero else head - n))
  unfolding page
  page-zero-IsRun n head xs = ground arith

  -- Without gaps up to the head, and with nothing above it, a page is the next keys in order, as many
  -- as the limit lets through.
  pub page-IsRun :
      (limit n head : ℕ) (xs : List A)
      → IsDense n head xs
      → All (λ y. test y ≡ true → key y ≤ head) xs
      → n ≤ head
      → IsRun n (page limit n xs)
        × (length (page limit n xs) ≡ (if ltb limit (head - n) then limit else head - n))
  page-IsRun zero n head xs d b h = page-zero-IsRun n head xs
  page-IsRun (suc limit) n head xs d b h = elim (Bool-cases (ltb n head)) [
    | inr e ↦
        let top : n ≡ head = ground (arith, e) in
        rw (page-none limit n xs (nothing_above n xs (rw top b))) (tt, ground (arith, top))
    | inl e ↦
        let low : n < head = ground (arith, e) in
        let (x, found, tx, next) = least_above-next n xs (d (suc n) (omega arith) (omega arith)) in
        let (run, count) =
          page-IsRun limit (key x) head xs (λ k m l. d k (omega arith) l) b (omega arith) in
        rw (page-some limit n xs found) ((tx, next, run), ground (arith, count, next))
  ]

  -- The keys of a page that is a run.
  pub IsRun-numbers : (n : ℕ) (xs : List A) → IsRun n xs → map key xs ≡ numbers_after n (length xs)
  IsRun-numbers n [] r = refl
  IsRun-numbers n (x ∷ xs) (t, k, r) = ap₂ (λ a b. a ∷ b) k (rw k at (IsRun-numbers (key x) xs r))

-- A test that is narrowed to keys up to a bound keeps the keys up to it.
pub has_key-narrowed :
    {A : Type 0} (key : A → ℕ) (test : A → Bool) (bound k : ℕ) (xs : List A)
    → k ≤ bound
    → has_key key test k xs ≡ true
    → has_key key (λ y. test y && leb (key y) bound) k xs ≡ true
unfolding has_key
has_key-narrowed key test bound k [] l h = cc
has_key-narrowed key test bound k (x ∷ xs) l h =
    ground (arith, has_key-narrowed key test bound k xs l)
