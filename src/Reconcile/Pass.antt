-- ===== src/Reconcile/Pass.antt =====
-- Reconciler.reconcile: the calls of a pass, in order, and what each leaves in the status. What is
-- only logged is left out.
pub mod License
pub mod Trace
pub mod Safety
pub mod Published
pub mod Guarantees
pub mod Outcome
use k2a_token_sync.Base.{
  String, ◌<>◌, concat, Bool, true, false, not, Option, none, some, List, [], ◌∷◌, if◌then◌else◌,
  ◌==◌,
}
use k2a_token_sync.Base.Int.{ℤ}
use k2a_token_sync.Time.{Time, is_zero, time_or_zero}
use k2a_token_sync.Errors.{Error, Result, ok, err, sentinel_error, wrap, err_credential_replaced}
use k2a_token_sync.Action.{
  Action, pure, fail, attempt, from_result, on_error, ◌>>=◌, ◌>>◌, then_run, outcome_of,
}
use k2a_token_sync.Api.{ClusterConnectionStatus}
use k2a_token_sync.Api.Reason.{
  reason_identity_restored, reason_credential_reissued, reason_foreign_field_manager,
}
use k2a_token_sync.Argocd.{ClusterSecret, Fingerprint, fingerprint}
use k2a_token_sync.Argocd.Refresh.{
  RefreshReason, identity_recreated, reason_text, is_blank, needs_refresh,
}
use k2a_token_sync.Argocd.Publish.{Registration, apply_registration, apply_credential}
use k2a_token_sync.Config.{Cluster, server_url}
use k2a_token_sync.Kube.{local, History}
use k2a_token_sync.Downstream.{Repairs, any_repair}
use k2a_token_sync.Downstream.Ensure.{ensure_argocd_identity}
use k2a_token_sync.Downstream.Token.{Token, mint_token, cluster_ca}
use k2a_token_sync.Reconcile.{
  Reconciler, PassState, Event, normal, warning, calling, on_status, emit,
}
use k2a_token_sync.Reconcile.Access.{ClusterAccess, access, verify_for_argocd}
use k2a_token_sync.Reconcile.Renewal.{maintain_self_credential}
use k2a_token_sync.Reconcile.Endpoint.{probe}
use k2a_token_sync.Reconcile.Publication.{desired_secret, with_token, register, publish}
use k2a_token_sync.Reconcile.Status.{
  fingerprint_from, record_fingerprint, argocd_secret_error, report_secret_ownership, cluster_pass,
}

-- identityRestoredMessage
unfoldable pub identity_restored_message : Cluster → Repairs → String
unfolding concat
identity_restored_message cluster repairs =
    let account =
      concat (cluster.service_account.namespace ∷ "/" ∷ cluster.service_account.name ∷ []) in
    if repairs.service_account
    then if repairs.binding
      then concat (
          "recreated ServiceAccount " ∷ account
          ∷ " and its cluster-admin binding; ArgoCD's credential no longer authenticates and must be reissued"
          ∷ [])
      else concat (
          "recreated ServiceAccount " ∷ account
          ∷ "; ArgoCD's credential no longer authenticates and must be reissued" ∷ [])
    else concat (
        "recreated the cluster-admin binding for ServiceAccount " ∷ account
        ∷ "; ArgoCD's credential still authenticates" ∷ [])

-- What access found is mirrored in the status, also where it says nothing.
unfoldable pub mirror_access : ClusterAccess → ClusterConnectionStatus → ClusterConnectionStatus
mirror_access held status =
    if is_zero held.expires_at
    then record status { self_credential_expires_at = none; self_credential_issued_at = none }
    else record status { self_credential_expires_at = some held.expires_at }

-- A recreated account outranks whatever the comparison concluded.
unfoldable pub refresh_reason : Repairs → Option RefreshReason → Option RefreshReason
refresh_reason repairs compared =
    if repairs.service_account then some identity_recreated else compared

-- A pass begins with the status of the one before and no Events.
abbrev pub starting : History → ClusterConnectionStatus → PassState
starting h status = record { status = status; history = h; events = [] }

module _ (rc : Reconciler) (cluster : Cluster) (now : Time) where
  -- A token is minted and proven before anything is published.
  unfoldable pub reissue :
      ClusterAccess → String → RefreshReason → ClusterSecret → Action PassState (Unit {0})
  unfolding mint_token verify_for_argocd publish with_token
  reissue held ca reason desired = do
    token ← calling (
        mint_token rc.printer rc.kube held.client cluster.service_account.namespace
          cluster.service_account.name cluster.token_ttl)
    calling (verify_for_argocd rc cluster token.value ca)
    publish rc cluster now reason token (with_token rc cluster now token desired)

  abbrev pub act_on :
      ClusterAccess → String → ClusterSecret → Option RefreshReason → Action PassState (Unit {0})
  act_on held ca desired none s =
      on_status (λ status. record status { last_action = "up-to-date" }) s
  act_on held ca desired (some reason) s = reissue held ca reason desired s

  -- Skipped on a first pass: nothing was published that could be observed.
  unfoldable pub observe : Bool → ClusterSecret → Action PassState String
  unfolding register
  observe first desired =
      if first
      then pure ""
      else do observed ← register rc cluster now desired; pure observed.credential_hash

  -- From the desired registration on.
  unfoldable pub converge : ClusterAccess → String → Repairs → Action PassState (Unit {0})
  unfolding desired_secret fingerprint_from is_blank observe needs_refresh refresh_reason reissue
  converge held ca repairs s =
      let applied = fingerprint_from s.status in
      let desired = desired_secret rc cluster now ca s.status in
      (do
        published ← observe (is_blank applied) desired
        act_on held ca desired (
            refresh_reason repairs
              (needs_refresh rc.digest applied published desired cluster.token_ttl now)))
        s

  unfoldable pub report_repairs : Repairs → Action PassState (Unit {0})
  unfolding any_repair identity_restored_message
  report_repairs repairs =
      if any_repair repairs
      then emit (warning reason_identity_restored (identity_restored_message cluster repairs))
      else pure tt

  -- reconcile
  unfoldable pub reconcile : Action PassState (Unit {0})
  unfolding access mirror_access cluster_ca maintain_self_credential ensure_argocd_identity
      report_repairs probe converge
  reconcile = do
    held ← calling (access rc cluster now)
    on_status (mirror_access held)
    ca ← calling (cluster_ca rc.printer rc.kube held.client cluster.service_account.namespace)
    maintain_self_credential rc cluster held now
    repairs ← calling (
        ensure_argocd_identity rc.printer rc.kube held.client cluster.service_account.namespace
          cluster.service_account.name cluster.cluster_role)
    report_repairs repairs
    probe rc cluster now ca
    converge held ca repairs

  abbrev pub left_and_outcome :
      Result (Unit {0}) × PassState → ClusterConnectionStatus × Option Error
  left_and_outcome (r, s) = (s.status, outcome_of r)

  -- The body of the pass, from a status and the calls made before.
  abbrev pub pass_body : History → ClusterConnectionStatus → ClusterConnectionStatus × Option Error
  pass_body h status = left_and_outcome (reconcile (starting h status))

  -- Reconciler.Cluster, with its body
  unfoldable pub reconcile_cluster :
      History → ClusterConnectionStatus → ℤ → ClusterConnectionStatus × Option Error
  unfolding cluster_pass reconcile
  reconcile_cluster h prior generation =
      cluster_pass rc.conditions rc.printer rc.argocd_namespace now cluster prior generation
        (pass_body h)
