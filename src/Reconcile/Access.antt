-- ===== src/Reconcile/Access.antt =====
-- How a pass reaches a cluster: clientFromToken, access, and the proof of a fresh credential,
-- verifyForArgoCD; and the provisioning of the first credential.
pub mod Laws
use k2a_token_sync.Base.{
  String, ◌<>◌, concat, Bool, true, false, not, ◌&&◌, Option, none, some, List, [], ◌∷◌,
  if◌then◌else◌,
}
use k2a_token_sync.Time.{Time, is_zero, after}
use k2a_token_sync.Errors.{
  Error, Result, ok, err, Sentinel, sentinel_error, wrap, wrap_two, is_sentinel, err_no_credential,
  err_credential_expired, err_credential_rejected, err_not_found,
}
use k2a_token_sync.Action.{Action, pure, fail, from_result, on_error, ◌>>=◌, ◌>>◌, then_run}
use k2a_token_sync.Config.{Cluster, credentials_secret_name, server_url}
use k2a_token_sync.Kube.{Kube, Client, local, by_token, History}
use k2a_token_sync.Kube.Secrets.{Credentials, read_credentials}
use k2a_token_sync.Downstream.Token.{Token, mint_token, can_act_as_cluster_admin, cluster_ca}
use k2a_token_sync.Downstream.Ensure.{ensure_argocd_identity, ensure_self_identity}
use k2a_token_sync.Reconcile.{Reconciler}

-- clusterAccess
pub record ClusterAccess : Type 0 where
  pub client : Client
  pub ca : String
  pub expires_at : Time

abbrev pub no_credential : Error
no_credential = sentinel_error err_no_credential "no stored credential"

abbrev pub credential_expired : Error
credential_expired = sentinel_error err_credential_expired "stored credential expired"

abbrev pub credential_rejected : Error
credential_rejected = sentinel_error err_credential_rejected "minted credential rejected"

abbrev client_or : Client → String → Option Error → Result Client
client_or client server none = ok client
client_or client server (some e) =
    err (wrap (concat ("building client for " ∷ server ∷ ": " ∷ [])) e "")

-- clientFromToken
unfoldable pub client_from_token : Kube → String → String → String → Result Client
unfolding concat
client_from_token kube server token ca =
    client_or (by_token server token ca) server (kube.client_error server token ca)

module _ (rc : Reconciler) (cluster : Cluster) where
  -- What access makes of an error of ReadCredentials.
  abbrev no_access : Error → Error
  no_access e =
      let secret_name = credentials_secret_name cluster in
      if is_sentinel e err_not_found
      then wrap "" no_credential (
          concat (
            " in " ∷ rc.namespace ∷ "/" ∷ secret_name
            ∷ "; bootstrap this cluster with 'k2a-token-sync bootstrap --cluster " ∷ cluster.name
            ∷ " --endpoint " ∷ cluster.endpoint
            ∷ " --from-kubeconfig <file>', or provision the identities and that Secret with your own automation"
            ∷ []))
      else e

  -- access
  unfoldable pub access : Time → Action History ClusterAccess
  unfolding read_credentials client_from_token credentials_secret_name server_url concat
  access now = do
    creds ← on_error no_access (
        read_credentials rc.kube rc.printer rc.parser local rc.namespace
          (credentials_secret_name cluster))
    if not (is_zero creds.expires_at) && not (after creds.expires_at now)
        then fail (
            wrap "" credential_expired (
              concat (
                ": k2a-token-sync's credential for this cluster expired at "
                ∷ rc.printer.rfc3339 creds.expires_at
                ∷ "; bootstrap it again to issue a new one"
                ∷ [])))
        else do
          client ← from_result (client_from_token rc.kube (server_url cluster) creds.token creds.ca)
          pure (record { client = client; ca = creds.ca; expires_at = creds.expires_at })

  -- verifyForArgoCD. An identity that is not authorised is only logged.
  unfoldable pub verify_for_argocd : String → String → Action History (Unit {0})
  unfolding client_from_token can_act_as_cluster_admin server_url
  verify_for_argocd token ca = do
    client ←
        on_error (λ e. wrap "building a client for the new credential: " e "")
          (from_result (client_from_token rc.kube (server_url cluster) token ca))
    _ ←
        on_error
          (λ e.
            wrap_two
              (wrap "" credential_rejected (
                concat (
                  ": the credential just minted for ArgoCD does not work against "
                  ∷ server_url cluster
                  ∷ [])))
              ": " e)
          (can_act_as_cluster_admin rc.printer rc.kube client)
    pure tt

  -- provisionCredential, and with it ProvisionFromExisting, which only calls it
  unfoldable pub provision_credential : Client → Action History Credentials
  unfolding mint_token cluster_ca
  provision_credential client = do
    let namespace = cluster.service_account.namespace
    token ←
        mint_token rc.printer rc.kube client namespace cluster.self_service_account_name
          cluster.self_token_ttl
    ca ← cluster_ca rc.printer rc.kube client namespace
    pure (record { token = token.value; ca = ca; expires_at = token.expires_at })

  -- Provision
  unfoldable pub provision : Client → Action History Credentials
  unfolding ensure_self_identity ensure_argocd_identity provision_credential
  provision admin = do
    let namespace = cluster.service_account.namespace
    ensure_self_identity rc.printer rc.kube admin namespace cluster.self_service_account_name
        cluster.cluster_role
    _ ←
        ensure_argocd_identity rc.printer rc.kube admin namespace cluster.service_account.name
          cluster.cluster_role
    provision_credential admin
