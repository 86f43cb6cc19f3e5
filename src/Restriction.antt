-- ===== src/Restriction.antt =====
-- cmd/restrict_rbac.go: executeRestriction. What it prints is left out; the listing of the inventory,
-- the answer to the prompt, and the writing of the manifest are given with their outcome.
pub mod Safety
use k2a_token_sync.Base.{String, ℕ, Bool, true, false, Option, none, some, List, if◌then◌else◌}
use k2a_token_sync.Errors.{Error, Result, ok, err, new_error, wrap}
use k2a_token_sync.Format.{Printer}
use k2a_token_sync.Action.{Action, pure, fail, from_result, ◌>>=◌, ◌>>◌}
use k2a_token_sync.Kube.{Kube, History}
use k2a_token_sync.Inventory.{Entry}
use k2a_token_sync.Hardening.{Names}
use k2a_token_sync.Hardening.Plan.{Plan, build_plan}
use k2a_token_sync.Hardening.Inspect.{inspect}
use k2a_token_sync.Hardening.Apply.{apply}
use k2a_token_sync.Hardening.Authorization.{Reviewer, AuthorizationResult, verify_authorization}

pub record RestrictRbacParams : Type 0 where
  pub names : Names
  pub confirm : Bool
  pub dry_run : Bool
  pub print_only : Bool

-- A verification that ended with no error, skipped or not, lets the command succeed.
abbrev pub verified : AuthorizationResult × Option Error → Result (Unit {0})
verified (_, none) = ok tt
verified (_, some e) =
    err
      (wrap "the RBAC objects were updated, but effective authorization verification failed: " e "")

module _ (p : Printer) (problems : String → List String) (numbered : String → ℕ → String)
    (kube : Kube) (reviewer : Reviewer) where
  -- Where no flag confirms, the prompt is asked.
  abbrev pub confirmed : Bool → Result Bool → Action History (Unit {0})
  confirmed true _ = pure tt
  confirmed false (err e) = fail e
  confirmed false (ok true) = pure tt
  confirmed false (ok false) = fail (new_error "confirmation not received; nothing was changed")

  -- executeRestriction, once nothing is to be previewed
  unfoldable pub restrict :
      RestrictRbacParams → Result Bool → List String → Action History (Unit {0})
  unfolding apply verify_authorization
  restrict params answer secret_names = do
    confirmed params.confirm answer
    apply kube params.names secret_names
    from_result (verified (verify_authorization p numbered params.names reviewer secret_names))

  -- executeRestriction
  unfoldable pub execute_restriction :
      RestrictRbacParams
      → Result (List Entry)
      → (Plan → Result (Unit {0}))
      → Result Bool
      → Action History (Unit {0})
  unfolding build_plan inspect restrict
  execute_restriction params listed write_manifest answer = do
    entries ← from_result listed
    plan ← from_result (build_plan p problems entries)
    inspect kube params.names
    if params.print_only
        then from_result (write_manifest plan)
        else if params.dry_run
        then pure tt
        else restrict params answer plan.secret_names
