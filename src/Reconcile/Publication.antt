-- ===== src/Reconcile/Publication.antt =====
-- What a pass does to the Secret of Argo CD: the calls of reconcile that publish a credential and a
-- registration, and what each leaves in the status. What is only logged is left out.
use k2a_token_sync.Base.{
  String, ◌<>◌, concat, not, Option, none, some, List, [], ◌∷◌, if◌then◌else◌, ◌==◌,
}
use k2a_token_sync.Time.{Time, time_or_zero}
use k2a_token_sync.Errors.{Error, ok, sentinel_error, wrap, err_credential_replaced}
use k2a_token_sync.Action.{Action, pure, fail, on_error, ◌>>=◌, ◌>>◌}
use k2a_token_sync.Api.{ClusterConnectionStatus}
use k2a_token_sync.Api.Reason.{reason_credential_reissued, reason_foreign_field_manager}
use k2a_token_sync.Argocd.{ClusterSecret, Fingerprint, fingerprint}
use k2a_token_sync.Argocd.Refresh.{RefreshReason, reason_text}
use k2a_token_sync.Argocd.Publish.{Registration, apply_registration, apply_credential}
use k2a_token_sync.Config.{Cluster, server_url}
use k2a_token_sync.Kube.{local}
use k2a_token_sync.Downstream.Token.{Token}
use k2a_token_sync.Reconcile.{Reconciler, PassState, normal, warning, calling, on_status, emit}
use k2a_token_sync.Reconcile.Status.{
  fingerprint_from, record_fingerprint, argocd_secret_error, report_secret_ownership,
}

-- errCredentialReplaced
abbrev pub credential_overwritten : Error
credential_overwritten =
    sentinel_error err_credential_replaced "published credential was overwritten"

module _ (rc : Reconciler) (cluster : Cluster) (now : Time) where
  -- The desired registration, with the times of what was last recorded.
  unfoldable pub desired_secret : String → ClusterConnectionStatus → ClusterSecret
  unfolding server_url fingerprint_from
  desired_secret ca status =
      let applied = fingerprint_from status in
      record {
        name = cluster.secret_name;
        namespace = rc.argocd_namespace;
        display_name = cluster.display_name;
        server = server_url cluster;
        bearer_token = "";
        ca_data = ca;
        project = cluster.project;
        namespaces = cluster.namespaces;
        cluster_resources = cluster.cluster_resources;
        token_expires_at = applied.token_expires_at;
        serving_cert_expires_at = time_or_zero status.serving_cert_expires_at;
        token_issued_at = applied.token_issued_at;
        cluster_name = cluster.name;
        extra_labels = cluster.labels;
        extra_annotations = cluster.annotations;
      }

  -- The desired registration with a token that was just minted.
  unfoldable pub with_token : Token → ClusterSecret → ClusterSecret
  with_token token desired = record desired {
    bearer_token = token.value;
    token_expires_at = token.expires_at;
    token_issued_at = now;
  }

  abbrev pub announce : Option String → Action PassState (Unit {0})
  announce none s = (ok tt, s)
  announce (some message) s = emit (warning reason_foreign_field_manager message) s

  -- reportSecretOwnership on the state of the pass
  unfoldable pub report_ownership : List String → Action PassState (Unit {0})
  unfolding report_secret_ownership
  report_ownership foreign s =
      let (status, message) =
        report_secret_ownership rc.conditions now rc.argocd_namespace cluster s.status foreign in
      announce message (record s { status = status })

  abbrev pub secret_error : Error → Error
  secret_error = argocd_secret_error rc.printer rc.argocd_namespace cluster

  -- ApplyRegistration, and the report of who else manages the Secret
  unfoldable pub register : ClusterSecret → Action PassState Registration
  unfolding apply_registration argocd_secret_error report_ownership
  register desired = do
    observed ←
        on_error secret_error
          (calling (apply_registration rc.printer rc.digest rc.codec rc.kube local desired))
    report_ownership observed.foreign_managers
    pure observed

  -- What is recorded of a credential that was sent.
  unfoldable pub published_fingerprint : ClusterSecret → String → Fingerprint
  unfolding fingerprint
  published_fingerprint desired written = record (fingerprint rc.digest desired) {
    credential_hash = written;
  }

  abbrev pub overwritten : ClusterSecret → Error
  overwritten desired = wrap "" credential_overwritten (
      concat (
        ": the credential published to " ∷ desired.namespace ∷ "/" ∷ desired.name
        ∷ " was overwritten before this pass finished; something else is writing that Secret, which must not be provisioned declaratively"
        ∷ []))

  abbrev pub report_reissue : RefreshReason → Token → Action PassState (Unit {0})
  report_reissue reason token = do
    on_status (λ status. record status {
      last_action = "reissued the credential: " <> reason_text reason;
    })
    emit (
        normal reason_credential_reissued (
          concat (
            "reissued ArgoCD's credential: "
            ∷ reason_text reason
            ∷ "; the new one expires "
            ∷ rc.printer.rfc3339 token.expires_at
            ∷ [])))

  -- The end of a publication. What is recorded is what was written; a credential that was
  -- overwritten meanwhile fails the pass.
  unfoldable pub settle_publication :
      RefreshReason → Token → ClusterSecret → String → Registration → Action PassState (Unit {0})
  unfolding published_fingerprint record_fingerprint reason_text concat
  settle_publication reason token desired written observed = do
    on_status (λ status. record_fingerprint status (published_fingerprint desired written))
    if not (observed.credential_hash == written)
        then fail (overwritten desired)
        else report_reissue reason token

  -- The credential first, then the registration.
  unfoldable pub publish : RefreshReason → Token → ClusterSecret → Action PassState (Unit {0})
  unfolding apply_credential register settle_publication argocd_secret_error
  publish reason token desired = do
    written ←
        on_error secret_error
          (calling (apply_credential rc.printer rc.digest rc.codec rc.kube local desired))
    observed ← register desired
    settle_publication reason token desired written observed
