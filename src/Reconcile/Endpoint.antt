-- ===== src/Reconcile/Endpoint.antt =====
-- probe: what the serving certificate at the endpoint says, recorded, and an error where Argo CD
-- could not connect. The clock is read once.
use k2a_token_sync.Base.{String, ◌<>◌, concat, not, Option, none, some, [], ◌∷◌, if◌then◌else◌}
use k2a_token_sync.Base.Int.{ltb_ℤ, int32}
use k2a_token_sync.Time.{Time, sub}
use k2a_token_sync.Errors.{Error, sentinel_error, wrap, wrap_two, err_certificate_invalid}
use k2a_token_sync.Action.{Action, fail, on_error, ◌>>=◌, ◌>>◌}
use k2a_token_sync.Api.{ClusterConnectionStatus}
use k2a_token_sync.Api.Conditions.{ConditionStatus, condition_true, condition_false}
use k2a_token_sync.Api.Reason.{
  condition_serving_certificate_valid, reason_ready, reason_certificate_invalid,
}
use k2a_token_sync.Config.{Cluster}
use k2a_token_sync.Downstream.Probe.{ServingCert, days_remaining, probe_serving_cert}
use k2a_token_sync.Reconcile.{Reconciler, PassState, calling, on_status}
use k2a_token_sync.Reconcile.Status.{set_condition}

-- errCertificateInvalid
abbrev pub certificate_invalid : Error
certificate_invalid = sentinel_error err_certificate_invalid "serving certificate unusable"

module _ (rc : Reconciler) (cluster : Cluster) (now : Time) where
  abbrev certified :
      ConditionStatus → String → String → ClusterConnectionStatus → ClusterConnectionStatus
  certified state reason message status =
      set_condition rc.conditions now status condition_serving_certificate_valid state reason
        message status.observed_generation

  abbrev pub with_certificate : ServingCert → ClusterConnectionStatus → ClusterConnectionStatus
  with_certificate cert status = record status {
    serving_cert_expires_at = some cert.not_after;
    serving_cert_days_remaining = int32 (days_remaining rc.printer cert now);
  }

  -- The judgement of a certificate whose hostname is good.
  abbrev pub judge_trust : ServingCert → Action PassState (Unit {0})
  judge_trust cert =
      let untrusted = concat (
        "the certificate presented at " ∷ cluster.endpoint
        ∷ " does not verify against the cluster CA published as ArgoCD's caData; ArgoCD would reject this endpoint"
        ∷ []) in
      let soon = concat (
        "expires in "
        ∷ rc.printer.decimal (days_remaining rc.printer cert now)
        ∷ " days; rotate or reissue the API server's serving certificate, which depends on your distribution"
        ∷ []) in
      if not cert.trusted_by_ca
      then (do
        on_status (certified condition_false reason_certificate_invalid untrusted)
        fail (wrap "" certificate_invalid (": " <> untrusted)))
      else if ltb_ℤ (sub cert.not_after now) cluster.expiry_warn_threshold
      then on_status (certified condition_false reason_certificate_invalid soon)
      else on_status (
          certified condition_true reason_ready "trusted, covers the endpoint, and not near expiry")

  abbrev pub judge_certificate : ServingCert → Option Error → Action PassState (Unit {0})
  judge_certificate cert none = judge_trust cert
  judge_certificate cert (some e) = do
    on_status (certified condition_false reason_certificate_invalid e.text)
    fail (wrap_two certificate_invalid ": " e)

  -- probe
  unfoldable pub probe : String → Action PassState (Unit {0})
  unfolding probe_serving_cert days_remaining set_condition concat
  probe ca = do
    cert ←
        on_error (λ e. wrap "probing the endpoint: " e "")
          (calling (probe_serving_cert rc.printer rc.kube rc.parser cluster.endpoint ca))
    on_status (with_certificate cert)
    judge_certificate cert cert.hostname_error
