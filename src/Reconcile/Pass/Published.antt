-- ===== src/Reconcile/Pass/Published.antt =====
-- What is published and stored in a pass, from its start.
use k2a_token_sync.Base.{String, ◌≡◌, ◌∙◌, refl, Option, none, some, arith}
use k2a_token_sync.Time.{Time}
use k2a_token_sync.Errors.{Error}
use k2a_token_sync.Action.{Action, Stays, stays_rules, if-Stays, >>=-Stays, >>=-into, update}
use k2a_token_sync.Api.{ClusterConnectionStatus}
use k2a_token_sync.Api.Conditions.{ConditionStatus}
use k2a_token_sync.Argocd.{Fingerprint}
use k2a_token_sync.Config.{Cluster}
use k2a_token_sync.Kube.{History}
use k2a_token_sync.Kube.Trace.{IsRetry}
use k2a_token_sync.Kube.Secrets.Laws.{read_credentials-Stays}
use k2a_token_sync.Downstream.{Repairs}
use k2a_token_sync.Downstream.Ensure.{ensure_argocd_identity}
use k2a_token_sync.Downstream.Token.{cluster_ca}
use k2a_token_sync.Downstream.Probe.{ServingCert}
use k2a_token_sync.Downstream.Trace.{
  cluster_ca-Stays, ensure_argocd_identity-Stays, probe_serving_cert-Stays,
}
use k2a_token_sync.Downstream.Probe.{probe_serving_cert}
use k2a_token_sync.Reconcile.{Reconciler, PassState, Event, calling, on_status, emit}
use k2a_token_sync.Reconcile.Access.{ClusterAccess, access}
use k2a_token_sync.Reconcile.Renewal.{
  Renewed, renewed, not_renewed, renew_self_credential, after_renewal, with_renewal,
  replace_self_credential, maintain_self_credential, report_recovery,
}
use k2a_token_sync.Reconcile.Renewal.Safety.{replace_self_credential-Stays}
use k2a_token_sync.Reconcile.Endpoint.{probe, judge_certificate, judge_trust, with_certificate}
use k2a_token_sync.Reconcile.Status.{fingerprint_from, set_condition}
use k2a_token_sync.Reconcile.Pass.{reconcile, report_repairs, mirror_access}
use k2a_token_sync.Reconcile.Pass.License.{PassLicense-IsFree, PassLicense-MayStore}
use k2a_token_sync.Reconcile.Pass.Trace.{Fine, FineState}
use k2a_token_sync.Reconcile.Pass.Safety.{converge-Fine}

module _ (rc : Reconciler) (cluster : Cluster) (retries : IsRetry rc.kube) (f : Fingerprint)
    (now : Time) where
  -- The calls are licensed, and the recorded fingerprint is the one that the pass began with.
  abbrev Sound : PassState → Type 0
  Sound s = FineState rc cluster f now s × (fingerprint_from s.status ≡ f)

  calling-Sound :
      {A : Type 0} (m : Action History A) → Stays (Fine rc cluster f) m → Stays Sound (calling m)
  unfolding calling
  calling-Sound m h = record { stays = λ s i. (h.stays s.history i.0, i.1) }

  on_status-Sound :
      (g : ClusterConnectionStatus → ClusterConnectionStatus)
      → ((st : ClusterConnectionStatus) → fingerprint_from (g st) ≡ fingerprint_from st)
      → Stays Sound (on_status g)
  unfolding on_status update
  on_status-Sound g h = record { stays = λ s i. (i.0, h s.status ∙ i.1) }

  emit-Sound : (e : Event) → Stays Sound (emit e)
  unfolding emit update
  emit-Sound e = record { stays = λ s i. i }

  condition-Sound :
      (kind : String) (state : ConditionStatus) (reason message : String)
      → Stays Sound (
          on_status (λ st.
            set_condition rc.conditions now st kind state reason message st.observed_generation))
  unfolding set_condition fingerprint_from
  condition-Sound kind state reason message = on_status-Sound _ (λ st. refl)

  access-Stays : Stays (Fine rc cluster f) (access rc cluster now)
  unfolding access
  access-Stays =
      search (stays_rules, read_credentials-Stays (PassLicense-IsFree rc cluster f) rc.kube)

  mirror-same :
      (held : ClusterAccess) (st : ClusterConnectionStatus)
      → fingerprint_from (mirror_access held st) ≡ fingerprint_from st
  unfolding mirror_access fingerprint_from
  mirror-same held st = ground arith

  module _ (held : ClusterAccess) where
    renewal-same :
        (r : Renewed) (st : ClusterConnectionStatus)
        → fingerprint_from (with_renewal rc cluster held now r st) ≡ fingerprint_from st
    unfolding fingerprint_from
    renewal-same (renewed token) st = refl
    renewal-same (not_renewed reason e) st = refl

    renewal-Sound : (r : Renewed) → Stays Sound (on_status (with_renewal rc cluster held now r))
    renewal-Sound r = on_status-Sound _ (renewal-same r)

    replace-Sound : Stays Sound (calling (replace_self_credential rc cluster held))
    replace-Sound = calling-Sound _ (
        replace_self_credential-Stays rc cluster held (PassLicense-IsFree rc cluster f)
          (PassLicense-MayStore rc cluster f held) retries)

    renew-Sound : Stays Sound (renew_self_credential rc cluster held now)
    unfolding renew_self_credential
    renew-Sound = search (stays_rules, replace-Sound, renewal-Sound)

    recovery-Sound : (was : Option String) → Stays Sound (report_recovery rc cluster held was)
    unfolding emit update
    recovery-Sound none = record { stays = λ s i. i }
    recovery-Sound (some reason) = record { stays = λ s i. i }

    after_renewal-Sound :
        (was : Option String) (r : Renewed) → Stays Sound (after_renewal rc cluster held now was r)
    after_renewal-Sound was (renewed token) = search (stays_rules, condition-Sound, recovery-Sound)
    after_renewal-Sound was (not_renewed reason e) =
        search (stays_rules, condition-Sound, emit-Sound)

    maintain-Sound : Stays Sound (maintain_self_credential rc cluster held now)
    unfolding maintain_self_credential
    maintain-Sound = record {
      stays = λ s i.
          (if-Stays _ _ _ (>>=-Stays _ _ renew-Sound (after_renewal-Sound _))
              (condition-Sound _ _ _ _)).stays
            s i;
    }

  judge_trust-Sound : (cert : ServingCert) → Stays Sound (judge_trust rc cluster now cert)
  judge_trust-Sound cert = search (stays_rules, condition-Sound)

  judge_certificate-Sound :
      (cert : ServingCert) (problem : Option Error)
      → Stays Sound (judge_certificate rc cluster now cert problem)
  judge_certificate-Sound cert none = judge_trust-Sound cert
  judge_certificate-Sound cert (some e) = search (stays_rules, condition-Sound)

  certificate-Sound :
      (cert : ServingCert) → Stays Sound (on_status (with_certificate rc cluster now cert))
  unfolding fingerprint_from
  certificate-Sound cert = on_status-Sound _ (λ st. refl)

  probing-Sound :
      (ca : String)
      → Stays Sound (calling (probe_serving_cert rc.printer rc.kube rc.parser cluster.endpoint ca))
  probing-Sound ca = calling-Sound _ (
      probe_serving_cert-Stays (PassLicense-IsFree rc cluster f) rc.printer rc.kube rc.parser
        cluster.endpoint ca)

  probe-Sound : (ca : String) → Stays Sound (probe rc cluster now ca)
  unfolding probe
  probe-Sound ca = search (stays_rules, probing-Sound, certificate-Sound, judge_certificate-Sound)

  repairs-Sound : (repairs : Repairs) → Stays Sound (report_repairs rc cluster now repairs)
  unfolding report_repairs
  repairs-Sound repairs = search (stays_rules, emit-Sound)

  identity-Sound :
      (held : ClusterAccess)
      → Stays Sound (
          calling (
            ensure_argocd_identity rc.printer rc.kube held.client cluster.service_account.namespace
              cluster.service_account.name cluster.cluster_role))
  identity-Sound held = calling-Sound _ (
      ensure_argocd_identity-Stays (PassLicense-IsFree rc cluster f) rc.printer rc.kube held.client
        _ _ _)

  ca-Sound :
      (held : ClusterAccess)
      → Stays Sound
          (calling (cluster_ca rc.printer rc.kube held.client cluster.service_account.namespace))
  ca-Sound held =
      calling-Sound _
        (cluster_ca-Stays (PassLicense-IsFree rc cluster f) rc.printer rc.kube held.client _)

  pub reconcile-Fine :
      (s : PassState) → Sound s → FineState rc cluster f now (reconcile rc cluster now s).1
  unfolding reconcile
  reconcile-Fine =
      >>=-into _ _ (λ s i. i.0) (calling-Sound _ access-Stays)
        (λ held.
          >>=-into _ _ (λ s i. i.0) (on_status-Sound _ (mirror-same held))
            (λ _.
              >>=-into _ _ (λ s i. i.0) (ca-Sound held)
                (λ ca.
                  >>=-into _ _ (λ s i. i.0) (maintain-Sound held)
                    (λ _.
                      >>=-into _ _ (λ s i. i.0) (identity-Sound held)
                        (λ repairs.
                          >>=-into _ _ (λ s i. i.0) (repairs-Sound repairs)
                            (λ _.
                              >>=-into _ _ (λ s i. i.0) (probe-Sound ca)
                                (λ _ s i.
                                  converge-Fine rc cluster f now held ca repairs s i.1 i.0)))))))
