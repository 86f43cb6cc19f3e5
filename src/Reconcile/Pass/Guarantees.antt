-- ===== src/Reconcile/Pass/Guarantees.antt =====
-- The guarantees of a pass, whatever the API servers answer and whatever changes meanwhile.
use k2a_token_sync.Base.{◌≡◌, ◌⊎◌, inl, inr, refl, false, []}
use k2a_token_sync.Time.{Time}
use k2a_token_sync.Api.{ClusterConnectionStatus}
use k2a_token_sync.Argocd.{Fingerprint}
use k2a_token_sync.Argocd.Refresh.{is_blank}
use k2a_token_sync.Argocd.Publish.{field_manager_credential, field_manager_registration}
use k2a_token_sync.Config.{Cluster}
use k2a_token_sync.Kube.{Call, History, request, apply_secret, create_secret, update_secret}
use k2a_token_sync.Kube.Trace.{Licensed, Licensed-map, IsRetry}
use k2a_token_sync.Reconcile.{Reconciler}
use k2a_token_sync.Reconcile.Status.{fingerprint_from}
use k2a_token_sync.Reconcile.Pass.{reconcile, starting}
use k2a_token_sync.Reconcile.Pass.License.{JustProven, JustApplied, HoldsUsed, PassLicense}
use k2a_token_sync.Reconcile.Pass.Published.{reconcile-Fine}

module _ (rc : Reconciler) (cluster : Cluster) where
  -- A credential goes out only just after it was proven.
  abbrev pub ProvenOnly : History → Call → Type 0
  ProvenOnly h (request _ (apply_secret manager s)) =
      (manager ≡ field_manager_registration) ⊎ JustProven rc cluster h s
  ProvenOnly h _ = Unit

  -- A Secret is stored only with a token that the cluster has answered.
  abbrev pub UsedOnly : History → Call → Type 0
  UsedOnly h (request _ (create_secret s)) = HoldsUsed rc cluster h s
  UsedOnly h (request _ (update_secret s)) = HoldsUsed rc cluster h s
  UsedOnly h _ = Unit

  -- A registration goes out only where one was recorded, or just after its credential.
  abbrev pub CredentialFirst : Fingerprint → History → Call → Type 0
  CredentialFirst f h (request _ (apply_secret manager s)) =
      (manager ≡ field_manager_credential) ⊎ (is_blank f ≡ false) ⊎ JustApplied rc cluster h
  CredentialFirst f h _ = Unit

  to_ProvenOnly :
      (f : Fingerprint) (h : History) (c : Call) → PassLicense rc cluster f h c → ProvenOnly h c
  to_ProvenOnly f h (request _ (apply_secret m s)) (inl (_, proven)) = inr proven
  to_ProvenOnly f h (request _ (apply_secret m s)) (inr (registration, _)) = inl registration
  to_ProvenOnly f h _ l = tt

  to_UsedOnly :
      (f : Fingerprint) (h : History) (c : Call) → PassLicense rc cluster f h c → UsedOnly h c
  to_UsedOnly f h (request _ (create_secret s)) l = l
  to_UsedOnly f h (request _ (update_secret s)) l = l
  to_UsedOnly f h _ l = tt

  to_CredentialFirst :
      (f : Fingerprint) (h : History) (c : Call)
      → PassLicense rc cluster f h c
      → CredentialFirst f h c
  to_CredentialFirst f h (request _ (apply_secret m s)) (inl (credential, _)) = inl credential
  to_CredentialFirst f h (request _ (apply_secret m s)) (inr (_, may)) = inr may
  to_CredentialFirst f h _ l = tt

-- In a pass, whatever the API servers answer, every credential that is applied to the Secret of
-- Argo CD was proven by the call just before: a question asked with that token, at the server and
-- over the CA that are published with it, which the API server answered; where RetryOnConflict
-- only repeats its body.
pub reconcile-ProvenOnly :
    (rc : Reconciler) (cluster : Cluster) (now : Time) (status : ClusterConnectionStatus)
    → IsRetry rc.kube
    → Licensed (ProvenOnly rc cluster) (reconcile rc cluster now (starting [] status)).1.history
reconcile-ProvenOnly rc cluster now status retries =
    let f = fingerprint_from status in
    Licensed-map _ _ (to_ProvenOnly rc cluster f) _
      (reconcile-Fine rc cluster retries f now (starting [] status) (tt, refl))

-- In a pass, whatever the API servers answer, every Secret that is created or updated holds a
-- token and a CA with which an earlier call of the same pass was answered by the cluster; where
-- RetryOnConflict only repeats its body.
pub reconcile-UsedOnly :
    (rc : Reconciler) (cluster : Cluster) (now : Time) (status : ClusterConnectionStatus)
    → IsRetry rc.kube
    → Licensed (UsedOnly rc cluster) (reconcile rc cluster now (starting [] status)).1.history
reconcile-UsedOnly rc cluster now status retries =
    let f = fingerprint_from status in
    Licensed-map _ _ (to_UsedOnly rc cluster f) _
      (reconcile-Fine rc cluster retries f now (starting [] status) (tt, refl))

-- In a pass, whatever the API servers answer, the registration is applied only where the status it
-- began with records a publication, or just after an apply of the credential that succeeded; where
-- RetryOnConflict only repeats its body.
pub reconcile-CredentialFirst :
    (rc : Reconciler) (cluster : Cluster) (now : Time) (status : ClusterConnectionStatus)
    → IsRetry rc.kube
    → Licensed
        (CredentialFirst rc cluster (fingerprint_from status))
        (reconcile rc cluster now (starting [] status)).1.history
reconcile-CredentialFirst rc cluster now status retries =
    let f = fingerprint_from status in
    Licensed-map _ _ (to_CredentialFirst rc cluster f) _
      (reconcile-Fine rc cluster retries f now (starting [] status) (tt, refl))
