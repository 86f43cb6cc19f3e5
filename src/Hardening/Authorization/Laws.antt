-- ===== src/Hardening/Authorization/Laws.antt =====
-- What a verified authorization shows.
use mathlib.Core.Option
use text.Mathlib.TextEquality.{eq_iff}
use k2a_token_sync.Base.{
  ℕ, suc, ◌+◌, String, ◌≡◌, ◌≢◌, ◌⊎◌, inl, inr, refl, sym, ap, ◌∙◌, Bool, true, false, Option, none,
  some, List, [], ◌∷◌, ◌++◌, map, length, contains, All, arith,
}
use k2a_token_sync.Errors.{Error, Result, ok, err}
use k2a_token_sync.Format.{Printer}
use k2a_token_sync.Hardening.{Names}
use k2a_token_sync.Hardening.Excluded.{candidate, excluded_name-fresh}
use k2a_token_sync.Hardening.Authorization.{
  AccessCheck, Review, AuthorizationResult, patch_check, access_checks, Reviewer, Checker, asking,
  judge, round, verify_checks, verify_authorization,
}

-- The server allowed the request, or denied it, as wanted.
abbrev pub Confirmed : Checker → AccessCheck → Type 0
Confirmed checker c =
    (n : ℕ) × (review : Review) × (checker n c ≡ ok review) × (review.allowed ≡ c.want)

module _ (p : Printer) (names : Names) (checker : Checker) where
  -- The checks were made, and each was answered as wanted.
  abbrev Passed : List AccessCheck → AuthorizationResult → AuthorizationResult → Type 0
  Passed cs result final = (final.checks ≡ length cs + result.checks) × All (Confirmed checker) cs

  judged :
      (c : AccessCheck) (review : Review)
      → Option.map some (judge p names c review) ≡ none
      → review.allowed ≡ c.want
  unfolding judge
  judged c review h = ground arith

  confirmed_round :
      (c : AccessCheck) (result : AuthorizationResult) (answer : Result Review)
      → (round p names c result answer).1 ≡ none
      → ((round p names c result answer).0.checks ≡ suc result.checks)
        × ((review : Review) × (answer ≡ ok review) × (review.allowed ≡ c.want))
  unfolding round
  confirmed_round c result (err e) h = absurd (ground arith)
  confirmed_round c result (ok review) h = (refl, (review, refl, judged c review h))

  not_skipped :
      (c : AccessCheck) (result : AuthorizationResult) (answer : Result Review)
      → (round p names c result answer).1 ≡ some none
      → (round p names c result answer).0.skipped ≢ ""
  unfolding round judge
  not_skipped c result (err e) h =
      ground (arith, eq_iff "the CLI caller is not allowed to create SubjectAccessReviews" "")
  not_skipped c result (ok review) h = absurd (ground arith)

  endings :
      (o : Option (Option Error))
      → (o ≡ none) ⊎ ((o ≡ some none) ⊎ ((e : Error) × (o ≡ some (some e))))
  endings none = inl refl
  endings (some none) = inr (inl refl)
  endings (some (some e)) = inr (inr (e, refl))

  verify_checks-Passed :
      (cs : List AccessCheck) (result final : AuthorizationResult)
      → verify_checks p names checker cs result ≡ (final, none)
      → final.skipped ≡ ""
      → Passed cs result final
  unfolding verify_checks
  verify_checks-Passed [] result final h quiet = (ground arith, tt)
  verify_checks-Passed (c ∷ cs) result final h quiet =
      let answer = checker result.checks c in
      let next = (round p names c result answer).0 in
      elim (endings (round p names c result answer).1) [
        | inl goes_on ↦
            let (counted, (review, answered, wanted)) = confirmed_round c result answer goes_on in
            let (total, rest) = verify_checks-Passed cs next final (ground arith) quiet in
            (omega arith, ((result.checks, review, answered, wanted), rest))
        | inr (inl quits) ↦ absurd (not_skipped c result answer quits (ground arith))
        | inr (inr (e, fails)) ↦ absurd (ground arith)
      ]

patches-Confirmed :
    (checker : Checker) (names : List String) (rest : List AccessCheck)
    → All (Confirmed checker) (map patch_check names ++ rest)
    → All (Confirmed checker) (map patch_check names) × All (Confirmed checker) rest
patches-Confirmed checker [] rest h = (tt, h)
patches-Confirmed checker (n ∷ names) rest (first, h) =
    let (front, back) = patches-Confirmed checker names rest h in ((first, front), back)

length-patches :
    (names : List String) (rest : List AccessCheck)
    → length (map patch_check names ++ rest) ≡ length names + length rest
length-patches [] rest = omega arith
length-patches (n ∷ names) rest = omega (arith, length-patches names rest)

-- What was asked about a Secret's name under one verb, and answered as wanted.
abbrev pub Checked : Checker → String → String → Bool → Type 0
Checked checker verb name want =
    Confirmed checker (record { verb = verb; name = name; want = want })

abbrev start : AuthorizationResult
start = record { skipped = ""; checks = 0 }

module _ (p : Printer) (numbered : String → ℕ → String) (names : Names) (reviewer : Reviewer)
    (distinct : (i j : ℕ) → candidate numbered i ≡ candidate numbered j → i ≡ j) where
  -- Where distinct numbers print as distinct texts, a verification that ends with no error and was
  -- not skipped made two checks more than there are names, had every listed name allowed, a name
  -- off the list denied, and create allowed.
  pub verify_authorization_sound :
      (secret_names : List String) (result : AuthorizationResult)
      → verify_authorization p numbered names reviewer secret_names ≡ (result, none)
      → result.skipped ≡ ""
      → (result.checks ≡ length secret_names + 2)
        × All (Confirmed (asking names reviewer)) (map patch_check secret_names)
        × ((k : String) × (contains secret_names k ≡ false)
            × Checked (asking names reviewer) "patch" k false)
        × Checked (asking names reviewer) "create" "" true
  unfolding verify_authorization access_checks
  verify_authorization_sound secret_names result h quiet =
      let (k, there, fresh) = excluded_name-fresh numbered distinct secret_names in
      let asked =
        ap (λ o. verify_checks p names (asking names reviewer) (access_checks o secret_names) start)
          (sym there)
        ∙ h in
      let (total, confirmed) =
        verify_checks-Passed p names (asking names reviewer) _ start result asked quiet in
      let (patches, (denied, (created, _))) =
        patches-Confirmed (asking names reviewer) secret_names _ confirmed in
      (total ∙ omega (arith, length-patches secret_names _), patches, (k, fresh, denied), created)
