-- ===== src/Reconcile/Renewal/Laws.antt =====
-- Renewal never fails the pass, and the condition that it leaves says how it went.
use k2a_token_sync.Base.{
  String, ◌≡◌, ◌∙◌, refl, ap, Bool, true, false, Bool-cases, inl, inr, Option, none, some,
  if◌then◌else◌, arith,
}
use k2a_token_sync.Base.Int.{ℤ}
use k2a_token_sync.Time.{Time, time_or_zero}
use k2a_token_sync.Errors.{Result, ok, err}
use k2a_token_sync.Action.{attempt, pure, update, ◌>>=◌, then_run}
use k2a_token_sync.Api.{ClusterConnectionStatus}
use k2a_token_sync.Api.Conditions.{
  ConditionStatus, condition_true, condition_false, IsLawful, condition,
}
use k2a_token_sync.Api.Reason.{condition_self_credential_valid}
use k2a_token_sync.Config.{Cluster}
use k2a_token_sync.Kube.{History}
use k2a_token_sync.Downstream.Token.{Token}
use k2a_token_sync.Reconcile.{Reconciler, PassState, Event, calling, on_status, emit}
use k2a_token_sync.Reconcile.Access.{ClusterAccess}
use k2a_token_sync.Reconcile.SelfCredential.{self_credential_due, failing_renewal, is_false}
use k2a_token_sync.Reconcile.Status.{set_condition}
use k2a_token_sync.Reconcile.Renewal.{
  Renewed, renewed, not_renewed, after_store, after_proof, after_mint, replace_self_credential,
  renew_self_credential, after_renewal, report_recovery, maintain_self_credential,
}

module _ (rc : Reconciler) (cluster : Cluster) (held : ClusterAccess) where
  -- What renewal ends with, which is never an error.
  abbrev Ends : Result Renewed → Type 0
  Ends r = (x : Renewed) × (r ≡ ok x)

  after_store-Ends :
      (token : Token) (stored : Result (Unit {0})) (h : History)
      → Ends (after_store rc cluster held token stored h).0
  unfolding pure
  after_store-Ends token (ok _) h = (renewed token, refl)
  after_store-Ends token (err e) h = (_, refl)

  after_proof-Ends :
      (token : Token) (proven : Result (Unit {0})) (h : History)
      → Ends (after_proof rc cluster held token proven h).0
  unfolding pure ◌>>=◌ then_run attempt
  after_proof-Ends token (ok _) h = after_store-Ends token _ _
  after_proof-Ends token (err e) h = (_, refl)

  after_mint-Ends :
      (minted : Result Token) (h : History) → Ends (after_mint rc cluster held minted h).0
  unfolding pure ◌>>=◌ then_run attempt
  after_mint-Ends (ok token) h = after_proof-Ends token _ _
  after_mint-Ends (err e) h = (_, refl)

  replace-Ends : (h : History) → Ends (replace_self_credential rc cluster held h).0
  unfolding replace_self_credential ◌>>=◌ then_run attempt
  replace-Ends h = after_mint-Ends _ _

  module _ (now : Time) where
    report_recovery-ok :
        (was : Option String) (s : PassState)
        → ((report_recovery rc cluster held was s).0 ≡ ok tt)
          × ((report_recovery rc cluster held was s).1.status ≡ s.status)
    unfolding emit update
    report_recovery-ok none s = (refl, refl)
    report_recovery-ok (some reason) s = (refl, refl)

    -- The reason that a renewal leaves in the condition.
    abbrev pub verdict_of : Renewed → Option String
    verdict_of (renewed _) = none
    verdict_of (not_renewed reason _) = some reason

    -- What the condition says once it has been set.
    failing-set :
        IsLawful rc.conditions
        → (status : ClusterConnectionStatus) (state : ConditionStatus) (reason message : String)
          (generation : ℤ)
        → failing_renewal rc.conditions (
            set_condition rc.conditions now status condition_self_credential_valid state reason
              message generation)
          ≡ (if is_false state then some reason else none)
    unfolding failing_renewal set_condition
    failing-set law status state reason message generation =
        let c = condition condition_self_credential_valid state reason message generation in
        let (d, there, agrees) = law.find-set_self now status.conditions c in
        ground (arith, there, agrees)

    news-ok : (b : Bool) (e : Event) (s : PassState) → ((if b then emit e else pure tt) s).0 ≡ ok tt
    unfolding emit update pure
    news-ok true e s = refl
    news-ok false e s = refl

    news-status :
        (b : Bool) (e : Event) (s : PassState)
        → ((if b then emit e else pure tt) s).1.status ≡ s.status
    unfolding emit update pure
    news-status true e s = refl
    news-status false e s = refl

    after_renewal-outcome :
        IsLawful rc.conditions
        → (was : Option String) (r : Renewed) (s : PassState)
        → ((after_renewal rc cluster held now was r s).0 ≡ ok tt)
          × (failing_renewal rc.conditions (after_renewal rc cluster held now was r s).1.status
              ≡ verdict_of r)
    unfolding ◌>>=◌ then_run on_status update
    after_renewal-outcome law was (renewed token) s =
        let told = report_recovery-ok was _ in
        (
          told.0,
          ap (failing_renewal rc.conditions) told.1 ∙ failing-set law s.status condition_true _ _ _,
        )
    after_renewal-outcome law was (not_renewed reason e) s = (
      news-ok _ _ _,
      ap (failing_renewal rc.conditions) (news-status _ _ _)
          ∙ failing-set law s.status condition_false reason _ _,
    )

    abbrev pub verdict_in : Result Renewed → Option String
    verdict_in (ok r) = verdict_of r
    verdict_in (err _) = none

    abbrev pub due_now : PassState → Bool
    due_now s =
        self_credential_due cluster (time_or_zero s.status.self_credential_issued_at)
          held.expires_at now

    renewal-outcome :
        IsLawful rc.conditions
        → (was : Option String) (s : PassState) (x : Renewed)
        → (replace_self_credential rc cluster held s.history).0 ≡ ok x
        → let after =
            (renew_self_credential rc cluster held now >>= after_renewal rc cluster held now was)
              s in
          (after.0 ≡ ok tt) × (failing_renewal rc.conditions after.1.status ≡ verdict_of x)
    unfolding renew_self_credential ◌>>=◌ then_run calling on_status update pure
    renewal-outcome law was s x e = rw e (after_renewal-outcome law was x _)

    -- With lawful condition functions, the maintenance of the own credential never fails the pass,
    -- and afterwards renewal is reported as failing exactly where it was due and did not succeed,
    -- under its reason.
    pub maintain-reports :
        IsLawful rc.conditions
        → (s : PassState)
        → let after = maintain_self_credential rc cluster held now s in
          (after.0 ≡ ok tt)
          × (failing_renewal rc.conditions after.1.status ≡ (
              if due_now s
              then verdict_in (replace_self_credential rc cluster held s.history).0
              else none))
    unfolding maintain_self_credential on_status update
    maintain-reports law s =
        let (x, e) = replace-Ends s.history in
        elim (Bool-cases (due_now s)) [
          | inl due ↦ rw (due, e) (renewal-outcome law _ s x e)
          | inr fresh ↦ rw fresh (refl, failing-set law s.status condition_true _ _ _)
        ]
