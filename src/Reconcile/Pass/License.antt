-- ===== src/Reconcile/Pass/License.antt =====
-- What licenses the writes of a pass.
use k2a_token_sync.Base.{String, ◌≡◌, ◌⊎◌, Bool, false, some, ◌∷◌, arith}
use k2a_token_sync.Base.Dict.{lookup}
use k2a_token_sync.Errors.{ok}
use k2a_token_sync.Argocd.{ClusterSecret, Fingerprint}
use k2a_token_sync.Argocd.Refresh.{is_blank}
use k2a_token_sync.Argocd.Publish.{
  cluster_config, credential_secret, field_manager_credential, field_manager_registration,
}
use k2a_token_sync.Config.{Cluster, server_url}
use k2a_token_sync.Kube.{
  local, by_token, Call, History, request, apply_secret, create_secret, update_secret,
  review_access,
}
use k2a_token_sync.Kube.Objects.{Secret}
use k2a_token_sync.Kube.Trace.{IsFree}
use k2a_token_sync.Kube.Secrets.{credentials_token_key, credentials_ca_key}
use k2a_token_sync.Kube.Secrets.Laws.{stored-token, stored-ca}
use k2a_token_sync.Reconcile.{Reconciler}
use k2a_token_sync.Reconcile.Access.{ClusterAccess}
use k2a_token_sync.Reconcile.Renewal.Safety.{Used, MayStore}

module _ (rc : Reconciler) (cluster : Cluster) where
  -- The call before was a question asked with the token that the Secret carries, at the server that
  -- the token is for and over a connection verified against the CA in the Secret, and the API server
  -- answered it.
  abbrev pub JustProven : History → Secret → Type 0
  JustProven h s =
      (c : ClusterSecret) × (payload : String) × (before : History) × (allowed : Bool) × (s
        ≡ credential_secret c payload)
      × (rc.codec.encode (cluster_config c) ≡ ok payload)
      × (c.server ≡ server_url cluster)
      × (h ≡ (
          request (by_token c.server c.bearer_token c.ca_data) (review_access "*" "*" "*")
          ∷ before))
      × (rc.kube.answer before (by_token c.server c.bearer_token c.ca_data)
            (review_access "*" "*" "*")
          ≡ ok allowed)

  -- The call before was an apply of the credential that succeeded.
  abbrev pub JustApplied : History → Type 0
  JustApplied h =
      (s reply : Secret) × (before : History) × (h
        ≡ (request local (apply_secret field_manager_credential s) ∷ before))
      × (rc.kube.answer before local (apply_secret field_manager_credential s) ≡ ok reply)

  -- The Secret holds a token that the cluster has answered, and the CA it was verified against.
  abbrev pub HoldsUsed : History → Secret → Type 0
  HoldsUsed h s =
      (token ca : String) × (lookup credentials_token_key s.contents ≡ some token)
      × (lookup credentials_ca_key s.contents ≡ some ca)
      × Used rc.kube (server_url cluster) token ca h

  -- The licenses of a pass that starts where the fingerprint is recorded.
  abbrev pub PassLicense : Fingerprint → History → Call → Type 0
  PassLicense f h (request _ (create_secret s)) = HoldsUsed h s
  PassLicense f h (request _ (update_secret s)) = HoldsUsed h s
  PassLicense f h (request _ (apply_secret manager s)) =
      ((manager ≡ field_manager_credential) × JustProven h s)
      ⊎ ((manager ≡ field_manager_registration) × ((is_blank f ≡ false) ⊎ JustApplied h))
  PassLicense f h _ = Unit

  pub PassLicense-IsFree : (f : Fingerprint) → IsFree (PassLicense f)
  PassLicense-IsFree f h (request _ (create_secret s)) e = absurd (ground arith)
  PassLicense-IsFree f h (request _ (update_secret s)) e = absurd (ground arith)
  PassLicense-IsFree f h (request _ (apply_secret m s)) e = absurd (ground arith)
  PassLicense-IsFree f h _ e = tt

  pub PassLicense-MayStore :
      (f : Fingerprint) (held : ClusterAccess) → MayStore rc cluster held (PassLicense f)
  PassLicense-MayStore f held token h s used carries =
      let holds : HoldsUsed h s = (
        token.value,
        held.ca,
        carries credentials_token_key token.value (stored-token rc.printer _),
        carries credentials_ca_key held.ca (stored-ca rc.printer _),
        used,
      ) in
      (holds, holds)
