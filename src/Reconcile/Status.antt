-- ===== src/Reconcile/Status.antt =====
-- What a pass records: Reconciler.Cluster around the pass itself, the fingerprint in status, the
-- reason of a failure, and who else manages the published Secret.
pub mod Laws
use k2a_token_sync.Base.{
  String, ◌<>◌, concat, join, Bool, true, false, not, ◌||◌, Option, none, some, List, [], ◌∷◌,
  if◌then◌else◌, ◌==◌, is_empty,
}
use k2a_token_sync.Base.Int.{ℤ}
use k2a_token_sync.Time.{Time, time_or_zero}
use k2a_token_sync.Errors.{
  Error, wrap, is_sentinel, is_forbidden, err_no_credential, err_credential_expired,
  err_certificate_invalid, err_credential_rejected, err_credential_replaced, err_role_ref_immutable,
}
use k2a_token_sync.Api.{ClusterConnectionStatus, annotation_adopted}
use k2a_token_sync.Api.Conditions.{
  Condition, ConditionStatus, condition_true, condition_false, ConditionApi, condition,
}
use k2a_token_sync.Api.Reason.{
  condition_ready, condition_secret_exclusively_owned, reason_ready, reason_awaiting_credential,
  reason_credential_expired, reason_certificate_invalid, reason_credential_rejected,
  reason_credential_replaced, reason_role_ref_immutable, reason_permission_denied,
  reason_endpoint_unreachable, reason_reconcile_failed, reason_adopted_registration,
  reason_foreign_field_manager,
}
use k2a_token_sync.Argocd.{Fingerprint}
use k2a_token_sync.Config.{Cluster}
use k2a_token_sync.Format.{Printer}
use k2a_token_sync.Reconcile.SelfCredential.{self_credential_threatens_access}

-- fingerprintFrom
unfoldable pub fingerprint_from : ClusterConnectionStatus → Fingerprint
fingerprint_from status = record {
  server = status.applied_server;
  display_name = status.applied_display_name;
  project = status.applied_project;
  ca_hash = status.applied_ca_hash;
  token_expires_at = time_or_zero status.token_expires_at;
  token_issued_at = time_or_zero status.token_issued_at;
  credential_hash = status.applied_credential_hash;
}

-- recordFingerprint
unfoldable pub record_fingerprint : ClusterConnectionStatus → Fingerprint → ClusterConnectionStatus
record_fingerprint status f = record status {
  applied_server = f.server;
  applied_display_name = f.display_name;
  applied_project = f.project;
  applied_ca_hash = f.ca_hash;
  applied_credential_hash = f.credential_hash;
  token_expires_at = some f.token_expires_at;
  token_issued_at = some f.token_issued_at;
}

-- reasonFor
unfoldable pub reason_for : Error → String
reason_for e =
    if is_sentinel e err_no_credential
    then reason_awaiting_credential
    else if is_sentinel e err_credential_expired
    then reason_credential_expired
    else if is_sentinel e err_certificate_invalid
    then reason_certificate_invalid
    else if is_sentinel e err_credential_rejected
    then reason_credential_rejected
    else if is_sentinel e err_credential_replaced
    then reason_credential_replaced
    else if is_sentinel e err_role_ref_immutable
    then reason_role_ref_immutable
    else if is_forbidden e
    then reason_permission_denied
    else if e.transport
    then reason_endpoint_unreachable
    else reason_reconcile_failed

-- argocdSecretError, on an error that is not nil
unfoldable pub argocd_secret_error : Printer → String → Cluster → Error → Error
argocd_secret_error p argocd_namespace cluster e =
    if not (is_forbidden e)
    then e
    else wrap "" e (
        concat (
          "; k2a-token-sync's Role in namespace "
          ∷ argocd_namespace
          ∷ " must allow create and patch on Secret "
          ∷ p.quote cluster.secret_name
          ∷ "; if restricted RBAC is enabled, rerun 'k2a-token-sync restrict-rbac' after inventory or secretName changes"
          ∷ []))

module _ (api : ConditionApi) where
  -- setCondition. The clock is the one that SetStatusCondition reads.
  unfoldable pub set_condition :
      Time
      → ClusterConnectionStatus
      → String
      → ConditionStatus
      → String
      → String
      → ℤ
      → ClusterConnectionStatus
  set_condition now status kind state reason message generation = record status {
    conditions = api.set now status.conditions (condition kind state reason message generation);
  }

  abbrev first_notice : Option Condition → Bool
  first_notice none = true
  first_notice (some was) = not (was.reason == reason_foreign_field_manager)

  -- reportSecretOwnership: the status, and the message of the Event where one is recorded.
  unfoldable pub report_secret_ownership :
      Time
      → String
      → Cluster
      → ClusterConnectionStatus
      → List String
      → ClusterConnectionStatus × Option String
  unfolding set_condition join concat
  report_secret_ownership now argocd_namespace cluster status foreign =
      let secret = argocd_namespace <> "/" <> cluster.secret_name in
      let managers = join ", " foreign in
      let was = api.find status.conditions condition_secret_exclusively_owned in
      let message = concat (
        secret ∷ " is also managed by " ∷ managers
        ∷ ", and this connection does not record an adoption; either it was taken over from 'argocd cluster add' without "
        ∷ annotation_adopted
        ∷ ", or this cluster's name collided with an existing registration — in which case ArgoCD is now pointed at the wrong cluster"
        ∷ []) in
      if is_empty foreign
      then (
        set_condition now status condition_secret_exclusively_owned condition_true reason_ready
            "k2a-token-sync is the only manager of this cluster Secret" status.observed_generation,
        none,
      )
      else if cluster.adopted_registration
      then (
        set_condition now status condition_secret_exclusively_owned condition_true
            reason_adopted_registration
            (concat (
              secret ∷ " was adopted rather than created; " ∷ managers ∷ " also holds fields on it"
              ∷ []))
            status.observed_generation,
        none,
      )
      else (
        set_condition now status condition_secret_exclusively_owned condition_false
            reason_foreign_field_manager message status.observed_generation,
        if first_notice was then some message else none,
      )

  abbrev pub succeeded :
      Time → ℤ → ClusterConnectionStatus → Option (String × String) → ClusterConnectionStatus
  succeeded now generation status (some (reason, message)) =
      set_condition now status condition_ready condition_false reason message generation
  succeeded now generation status none =
      set_condition now status condition_ready condition_true reason_ready
        "ArgoCD holds a current credential for this cluster" generation

  -- The part of Reconciler.Cluster after the pass.
  unfoldable pub conclude :
      Printer
      → Time
      → Cluster
      → ℤ
      → ClusterConnectionStatus
      → Option Error
      → ClusterConnectionStatus × Option Error
  unfolding set_condition reason_for
  conclude p now cluster generation status (some e) = (
    record (set_condition now status condition_ready condition_false (reason_for e) e.text
        generation) { last_action = "failed" },
    some e,
  )
  conclude p now cluster generation status none =
      let synced = record status { last_sync_time = some now } in
      (
        succeeded now generation synced (self_credential_threatens_access p api cluster synced now),
        none,
      )

  -- Reconciler.Cluster, around the pass: `reconcile` takes the status it starts from to the status it
  -- leaves and to its error.
  unfoldable pub cluster_pass :
      Printer
      → String
      → Time
      → Cluster
      → ClusterConnectionStatus
      → ℤ
      → (ClusterConnectionStatus → ClusterConnectionStatus × Option Error)
      → ClusterConnectionStatus × Option Error
  unfolding conclude
  cluster_pass p argocd_namespace now cluster prior generation reconcile =
      let status = record prior {
        observed_generation = generation;
        secret = argocd_namespace <> "/" <> cluster.secret_name;
      } in
      let (left, outcome) = reconcile status in conclude p now cluster generation left outcome
