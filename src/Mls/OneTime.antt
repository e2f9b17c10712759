-- ===== src/Mls/OneTime.antt =====
-- A key package is handed out once.
use qgramm.Common.{
  ℕ, ◌≡◌, ◌≢◌, ap, ◌∙◌, String, Bool, List, [], ◌∷◌, arith, str_eq, eq_iff, Bool-cases, inl, inr,
  ok, >>=-eq-ok, ok-injective,
}
use qgramm.Store.{Identity, Engine}
use qgramm.Mls.Effects.{submit-parts, insert-keeps, welcome_one-keeps, upload-row, confirm-keeps}
use qgramm.Mls.{
  welcome_one, welcome_all, submit_commit, Step, elsewhere, uploaded, claimed, submitted, confirmed,
  Run, rests, goes_on, Relay, Suite, Hooks, CommitInput, WelcomeInput, Claimed, claim_package,
  upload_package,
}
use qgramm.Mls.Taken.{
  package_of, is_free, is_listed, IsTaken, claim_row-is_free, claim_row-keeps, is_free-append,
  is_free-use_package, is_free-is_listed, is_listed-append, is_listed-claim_row,
  is_listed-use_package, claim-row,
}

module _ (e : Engine) (s : Suite) (io : ℕ → Bool) (fresh : String → String) (chat : String)
    (now : ℕ) where
  welcome_all-IsTaken :
      (k : String) (r : Relay) (epoch : ℕ) (targets : List String) (items : List WelcomeInput)
      {r' : Relay}
      → welcome_all e s io fresh chat now r epoch targets items ≡ ok r'
      → IsTaken k r
      → IsTaken k r'
  unfolding welcome_all
  welcome_all-IsTaken k r epoch targets [] h taken = rw⁻¹ (ok-injective _ _ h) taken
  welcome_all-IsTaken k r epoch targets (item ∷ items) h taken =
      let (r1, h0, h1) = >>=-eq-ok (welcome_one e s io fresh chat now r epoch targets item) _ h in
      let (one, _, _) = welcome_one-keeps e s io fresh chat now r epoch targets item h0 in
      welcome_all-IsTaken k r1 epoch (item.device_id ∷ targets) items h1 (
        ap (is_listed k) one ∙ is_listed-use_package k item.key_package_id r.packages ∙ taken.0,
        ap (is_free k) one ∙ is_free-use_package k item.key_package_id r.packages ∙ taken.1,
      )

  submit-IsTaken :
      (hooks : Hooks) (k : String) (r : Relay) (id : Identity) (input : CommitInput)
      (transition : String) {r' : Relay}
      → submit_commit e s hooks io fresh r id chat input transition now ≡ ok r'
      → IsTaken k r
      → IsTaken k r'
  submit-IsTaken hooks k r id input transition h taken =
      let (t, r1, r2, n, i, w, packages, _, _, _, _) =
        submit-parts e s io fresh chat now hooks r id input transition h in
      rw packages
        (welcome_all-IsTaken k r1 n [] input.welcomes w (rw ((insert-keeps (io 2) t r i).0) taken))

upload-IsTaken :
    (e : Engine) (s : Suite) (io : ℕ → Bool) (k : String) (r : Relay) (id : Identity)
    (encoded : String) (now : ℕ) {r' : Relay} {added : String}
    → upload_package e s io r id encoded now ≡ ok (r', added)
    → IsTaken k r
    → IsTaken k r'
unfolding is_listed
upload-IsTaken e s io k r id encoded now h taken =
    let (p, row, fresh, _) = upload-row e s io r id encoded now h in
    elim (Bool-cases (str_eq p.id k)) [
      | inl same ↦ absurd (ground (arith, taken, rw ((eq_iff p.id k).0 same) at fresh))
      | inr other ↦ (
        ap (is_listed k) row ∙ is_listed-append k r.packages p taken.0,
        ap (is_free k) row ∙ is_free-append k r.packages p taken.1 other,
      )
    ]

claim-IsTaken :
    (e : Engine) (s : Suite) (io : ℕ → Bool) (k : String) (r : Relay) (id : Identity)
    (chat target : String) {r' : Relay} {c : Claimed}
    → claim_package e s io r id chat target ≡ ok (r', c)
    → IsTaken k r
    → IsTaken k r'
claim-IsTaken e s io k r id chat target {r'} {c} h taken =
    let (_, row) = claim-row e s io r id chat target h in
    (
      ap (is_listed k) row ∙ is_listed-claim_row k (package_of c) chat r.packages ∙ taken.0,
      ap (is_free k) row ∙ claim_row-keeps k (package_of c) chat r.packages taken.1,
    )

module _ (e : Engine) (s : Suite) (hooks : Hooks) where
  Step-IsTaken : (k : String) (r r' : Relay) → Step e s hooks r r' → IsTaken k r → IsTaken k r'
  Step-IsTaken k r r' (elsewhere _ db) taken = taken
  Step-IsTaken k r r' (uploaded io _ id encoded now _ key h) taken =
      upload-IsTaken e s io k r id encoded now h taken
  Step-IsTaken k r r' (claimed io _ id chat target _ c h) taken =
      claim-IsTaken e s io k r id chat target h taken
  Step-IsTaken k r r' (submitted io fresh _ id chat input transition now _ h) taken =
      submit-IsTaken e s io fresh chat now hooks k r id input transition h taken
  Step-IsTaken k r r' (confirmed io init_io _ chat input now _ h) taken =
      let (packages, _) = confirm-keeps e s hooks io init_io r chat input now h in rw packages taken

  Run-IsTaken : (k : String) (r r' : Relay) → Run e s hooks r r' → IsTaken k r → IsTaken k r'
  Run-IsTaken k r r' (rests _) taken = taken
  Run-IsTaken k r r' (goes_on _ m _ past step) taken =
      Step-IsTaken k m r' step (Run-IsTaken k r m past taken)

  -- Of two claims that succeed, with any uploads, claims, commits and confirmations between them, for
  -- whatever chats and devices, the later one is not of the package that the earlier one took, be it handed
  -- out or retired.
  pub claims-differ :
      (io io' : ℕ → Bool) (r r1 r2 r3 : Relay) (id id' : Identity)
      (chat chat' target target' : String) (c c' : Claimed)
      → claim_package e s io r id chat target ≡ ok (r1, c)
      → Run e s hooks r1 r2
      → claim_package e s io' r2 id' chat' target' ≡ ok (r3, c')
      → package_of c' ≢ package_of c
  claims-differ io io' r r1 r2 r3 id id' chat chat' target target' c c' h run h' same =
      let (free, row) = claim-row e s io r id chat target h in
      let k = package_of c in
      let taken : IsTaken k r1 = (
        ap (is_listed k) row
            ∙ is_listed-claim_row k k chat r.packages
            ∙ is_free-is_listed k r.packages free,
        ap (is_free k) row ∙ claim_row-is_free k chat r.packages,
      ) in
      let (free', _) = claim-row e s io' r2 id' chat' target' h' in
      let (_, gone) = Run-IsTaken k r1 r2 run taken in
      absurd (ground (arith, gone, rw same at free'))
