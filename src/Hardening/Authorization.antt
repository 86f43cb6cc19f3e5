-- ===== src/Hardening/Authorization.antt =====
-- VerifyAuthorization: the API server is asked, as the controller, for every name on the list, for
-- one that is not, and for create. The server's answers are a parameter: the answer to a request may
-- depend on how many were made before.
pub mod Laws
use mathlib.Core.Option
use k2a_token_sync.Base.{
  ℕ, zero, suc, ◌+◌, String, ◌<>◌, concat, ◌≡◌, ◌≢◌, ◌⊎◌, inl, inr, refl, Bool, true, false, not,
  Option, none, some, List, [], ◌∷◌, ◌++◌, map, if◌then◌else◌, ◌==◌, length, All, arith,
}
use k2a_token_sync.Errors.{Error, Result, ok, err, new_error, wrap, is_forbidden}
use k2a_token_sync.Format.{Printer}
use k2a_token_sync.Hardening.{Names}
use k2a_token_sync.Hardening.Excluded.{excluded_name}

pub record AccessCheck : Type 0 where
  pub verb : String
  pub name : String
  pub want : Bool

-- The status of a SubjectAccessReview.
pub record Review : Type 0 where
  pub evaluation_error : String
  pub allowed : Bool
  pub reason : String

pub record AuthorizationResult : Type 0 where
  pub skipped : String
  pub checks : ℕ

abbrev bool_eq : Bool → Bool → Bool
bool_eq true b = b
bool_eq false b = not b

abbrev word : Bool → String
word b = if b then "allowed" else "denied"

abbrev pub patch_check : String → AccessCheck
patch_check name = record { verb = "patch"; name = name; want = true }

-- The checks, in order. A name that the search does not find cannot be asked for; the search
-- always finds one.
unfoldable pub access_checks : Option String → List String → List AccessCheck
access_checks excluded secret_names =
    map patch_check secret_names
    ++ (excluded_check excluded ++ (record { verb = "create"; name = ""; want = true } ∷ []))
  where
    excluded_check : Option String → List AccessCheck
    excluded_check none = []
    excluded_check (some k) = record { verb = "patch"; name = k; want = false } ∷ []

-- SubjectAccessReviewSpec, with its ResourceAttributes
pub record AccessReviewSpec : Type 0 where
  pub user : String
  pub namespace : String
  pub verb : String
  pub resource : String
  pub name : String

-- The review of a check, as the controller's account in the namespace of Argo CD.
abbrev pub review_spec : Names → AccessCheck → AccessReviewSpec
review_spec names check = record {
  user = concat ("system:serviceaccount:" ∷ names.namespace ∷ ":" ∷ names.service_account ∷ []);
  namespace = names.argocd_namespace;
  verb = check.verb;
  resource = "secrets";
  name = check.name;
}

-- The n-th request to the server.
abbrev pub Reviewer : Type 0
Reviewer = ℕ → AccessReviewSpec → Result Review

-- The server as it answers the checks of the controller's account.
abbrev pub Checker : Type 0
Checker = ℕ → AccessCheck → Result Review

abbrev pub asking : Names → Reviewer → Checker
asking names reviewer n check = reviewer n (review_spec names check)

module _ (p : Printer) (names : Names) where
  abbrev subject : String
  subject = concat ("ServiceAccount " ∷ names.namespace ∷ "/" ∷ names.service_account ∷ [])

  -- One round of the loop after an answer: an error, or none to go on.
  unfoldable pub judge : AccessCheck → Review → Option Error
  judge check review =
      if not (review.evaluation_error == "")
      then some (
          new_error (
            concat (
              "authorizer could not evaluate "
              ∷ check.verb
              ∷ " access to Secret "
              ∷ p.quote check.name
              ∷ ": "
              ∷ review.evaluation_error
              ∷ [])))
      else if not (bool_eq review.allowed check.want)
      then some (
          new_error (
            concat (
              subject
              ∷ " authorization to "
              ∷ check.verb
              ∷ " Secret "
              ∷ p.quote check.name
              ∷ " is "
              ∷ word review.allowed
              ∷ ", expected "
              ∷ word check.want
              ∷ ": "
              ∷ review.reason
              ∷ [])))
      else none

  -- One round of the loop: the result so far, and the return where the loop ends here.
  unfoldable pub round :
      AccessCheck
      → AuthorizationResult
      → Result Review
      → AuthorizationResult × Option (Option Error)
  unfolding judge
  round c result (err e) =
      if is_forbidden e
      then (
        record result { skipped = "the CLI caller is not allowed to create SubjectAccessReviews" },
        some none,
      )
      else (
        result,
        some (
            some (
              wrap
                (concat ("checking " ∷ c.verb ∷ " access to Secret " ∷ p.quote c.name ∷ ": " ∷ []))
                e "")),
      )
  round c result (ok review) =
      (record result { checks = suc result.checks }, Option.map some (judge c review))

  -- The loop: the result and the error that it is returned with.
  unfoldable pub verify_checks :
      Checker → List AccessCheck → AuthorizationResult → AuthorizationResult × Option Error
  unfolding round
  verify_checks checker [] result = (result, none)
  verify_checks checker (c ∷ cs) result =
      let (next, ended) = round c result (checker result.checks c) in
      let rest = verify_checks checker cs next in
      elim ended [ some outcome ↦ (next, outcome) | none ↦ rest ]

module _ (p : Printer) (numbered : String → ℕ → String) (names : Names) (reviewer : Reviewer) where
  -- VerifyAuthorization
  unfoldable pub verify_authorization : List String → AuthorizationResult × Option Error
  unfolding verify_checks access_checks excluded_name
  verify_authorization secret_names =
      verify_checks p names (asking names reviewer)
        (access_checks (excluded_name numbered secret_names) secret_names)
        (record { skipped = ""; checks = 0 })
