-- ===== src/Downstream/Trace.antt =====
-- The calls to the downstream cluster write no Secret, so they need no license.
use k2a_token_sync.Base.{String, false, refl}
use k2a_token_sync.Time.{Duration}
use k2a_token_sync.Errors.{Result, ok, err}
use k2a_token_sync.Action.{Stays, stays_rules, pure-Stays, from_result-Stays, on_error-Stays}
use k2a_token_sync.Format.{Printer, Parser}
use k2a_token_sync.Kube.{Client, Call, History, Kube, dial, review_access}
use k2a_token_sync.Kube.Objects.{ClusterRoleBinding, ServiceAccount}
use k2a_token_sync.Kube.Trace.{Licensed, IsFree, send-Stays}
use k2a_token_sync.Downstream.Token.{mint_token, can_act_as_cluster_admin, cluster_ca}
use k2a_token_sync.Downstream.Ensure.{
  ensure_service_account, ensure_cluster_role_binding, ensure_argocd_identity, after_account,
  after_binding,
}
use k2a_token_sync.Downstream.Probe.{probe_serving_cert, handshake_with}

module _ {L : History → Call → Type 0} (free : IsFree L) (p : Printer) (kube : Kube) where
  module _ (client : Client) where
    pub mint_token-Stays :
        (namespace name : String) (ttl : Duration)
        → Stays (Licensed L) (mint_token p kube client namespace name ttl)
    unfolding mint_token
    mint_token-Stays namespace name ttl = search (stays_rules, send-Stays free kube)

    pub can_act_as_cluster_admin-Stays : Stays (Licensed L) (can_act_as_cluster_admin p kube client)
    unfolding can_act_as_cluster_admin
    can_act_as_cluster_admin-Stays =
        on_error-Stays _ _ (send-Stays free kube client (review_access "*" "*" "*") refl)

    pub cluster_ca-Stays :
        (namespace : String) → Stays (Licensed L) (cluster_ca p kube client namespace)
    unfolding cluster_ca
    cluster_ca-Stays namespace = search (stays_rules, send-Stays free kube)

    after_account-Stays :
        (namespace name : String) (found : Result ServiceAccount)
        → Stays (Licensed L) (after_account p kube client namespace name found)
    after_account-Stays namespace name (ok _) = pure-Stays false
    after_account-Stays namespace name (err e) = search (stays_rules, send-Stays free kube)

    ensure_service_account-Stays :
        (namespace name : String)
        → Stays (Licensed L) (ensure_service_account p kube client namespace name)
    unfolding ensure_service_account
    ensure_service_account-Stays namespace name =
        search (stays_rules, send-Stays free kube, after_account-Stays)

    after_binding-Stays :
        (binding_name cluster_role sa_namespace sa_name : String)
        (found : Result ClusterRoleBinding)
        → Stays
            (Licensed L)
            (after_binding p kube client binding_name cluster_role sa_namespace sa_name found)
    after_binding-Stays binding_name cluster_role sa_namespace sa_name (ok existing) =
        from_result-Stays _
    after_binding-Stays binding_name cluster_role sa_namespace sa_name (err e) =
        search (stays_rules, send-Stays free kube)

    ensure_cluster_role_binding-Stays :
        (binding_name cluster_role sa_namespace sa_name : String)
        → Stays (Licensed L) (
            ensure_cluster_role_binding p kube client binding_name cluster_role sa_namespace
              sa_name)
    unfolding ensure_cluster_role_binding
    ensure_cluster_role_binding-Stays binding_name cluster_role sa_namespace sa_name =
        search (stays_rules, send-Stays free kube, after_binding-Stays)

    pub ensure_argocd_identity-Stays :
        (namespace name cluster_role : String)
        → Stays (Licensed L) (ensure_argocd_identity p kube client namespace name cluster_role)
    unfolding ensure_argocd_identity
    ensure_argocd_identity-Stays namespace name cluster_role =
        search (stays_rules, ensure_service_account-Stays, ensure_cluster_role_binding-Stays)

  handshake_with-Stays :
      (endpoint host ca : String) → Stays (Licensed L) (handshake_with p kube endpoint host ca)
  unfolding handshake_with
  handshake_with-Stays endpoint host ca = record {
    stays = λ h l. (free h (dial endpoint host ca) refl, l);
  }

  pub probe_serving_cert-Stays :
      (r : Parser) (endpoint ca : String)
      → Stays (Licensed L) (probe_serving_cert p kube r endpoint ca)
  unfolding probe_serving_cert
  probe_serving_cert-Stays r endpoint ca = search (stays_rules, handshake_with-Stays)
