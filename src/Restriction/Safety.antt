-- ===== src/Restriction/Safety.antt =====
-- What a restriction that is not confirmed sends.
use k2a_token_sync.Base.{
  Bool-cases, inl, inr, String, ℕ, ◌≡◌, Bool, true, ◌||◌, List, arith, if◌then◌else◌,
}
use k2a_token_sync.Errors.{Result}
use k2a_token_sync.Format.{Printer}
use k2a_token_sync.Action.{Stays, pure, from_result-Stays, pure-Stays, >>=-Stays, from_result}
use k2a_token_sync.Kube.{Kube, History, Call, request}
use k2a_token_sync.Kube.Trace.{Licensed}
use k2a_token_sync.Inventory.{Entry}
use k2a_token_sync.Hardening.Plan.{Plan}
use k2a_token_sync.Hardening.Authorization.{Reviewer}
use k2a_token_sync.Hardening.Inspect.Trace.{is_read, Reads, inspect-Stays}
use k2a_token_sync.Restriction.{RestrictRbacParams, restrict, execute_restriction}

abbrev pub ReadOnly : History → Call → Type 0
ReadOnly h (request _ r) = is_read r ≡ true
ReadOnly h _ = ⊥

ReadOnly-Reads : Reads (Licensed ReadOnly)
ReadOnly-Reads r h e l = (e, l)

previewed-Stays :
    (p : Printer) (problems : String → List String) (numbered : String → ℕ → String) (kube : Kube)
    (reviewer : Reviewer) (params : RestrictRbacParams) (written : Result (Unit {0}))
    (answer : Result Bool) (secret_names : List String)
    → (params.dry_run || params.print_only) ≡ true
    → Stays (Licensed ReadOnly) (
        if params.print_only
        then from_result written
        else if params.dry_run
        then pure tt
        else restrict p problems numbered kube reviewer params answer secret_names)
previewed-Stays p problems numbered kube reviewer params written answer secret_names preview =
    elim (Bool-cases params.print_only) [
      | inl printed ↦ rw printed (from_result-Stays written)
      | inr other ↦
          let dry : params.dry_run ≡ true = ground arith in rw (other, dry) (pure-Stays tt)
    ]

-- A restriction that is previewed, with --print or with --dry-run, sends nothing but reads,
-- whatever the API server answers, and whatever the inventory holds.
pub execute_restriction-ReadOnly :
    (p : Printer) (problems : String → List String) (numbered : String → ℕ → String) (kube : Kube)
    (reviewer : Reviewer) (params : RestrictRbacParams) (listed : Result (List Entry))
    (write_manifest : Plan → Result (Unit {0})) (answer : Result Bool)
    → (params.dry_run || params.print_only) ≡ true
    → Stays
        (Licensed ReadOnly)
        (execute_restriction p problems numbered kube reviewer params listed write_manifest answer)
unfolding execute_restriction
execute_restriction-ReadOnly p problems numbered kube reviewer params listed write_manifest answer
      preview =
    >>=-Stays _ _ (from_result-Stays listed) (λ entries.
      >>=-Stays _ _ (from_result-Stays _) (λ plan.
        >>=-Stays _ _ (inspect-Stays kube params.names ReadOnly-Reads) (λ u.
          previewed-Stays p problems numbered kube reviewer params (write_manifest plan) answer
            plan.secret_names preview)))
