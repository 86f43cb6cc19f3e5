-- ===== src/Reconcile/Renewal.antt =====
-- renewSelfCredential and maintainSelfCredential: the tool's own credential is replaced by one that
-- has been proven to work, and the pass goes on either way.
pub mod Safety
pub mod Laws
use k2a_token_sync.Base.{
  String, ◌<>◌, concat, Bool, true, false, not, ◌||◌, Option, none, some, List, [], ◌∷◌,
  if◌then◌else◌, ◌==◌,
}
use k2a_token_sync.Base.Dict.{Dict}
use k2a_token_sync.Time.{Time, time_or_zero}
use k2a_token_sync.Errors.{Error, Result, ok, err, wrap}
use k2a_token_sync.Action.{
  Action, pure, fail, attempt, from_result, on_error, ◌>>=◌, ◌>>◌, then_run,
}
use k2a_token_sync.Api.{ClusterConnectionStatus}
use k2a_token_sync.Api.Conditions.{condition_true, condition_false}
use k2a_token_sync.Api.Reason.{
  condition_self_credential_valid, reason_ready, reason_renewal_mint_failed,
  reason_renewal_unverified, reason_renewal_not_stored, reason_renewal_recovered,
}
use k2a_token_sync.Config.{Cluster, credentials_secret_name, server_url}
use k2a_token_sync.Kube.{Kube, Client, local, History}
use k2a_token_sync.Kube.Secrets.{Credentials, write_credentials}
use k2a_token_sync.Downstream.Token.{Token, mint_token, cluster_ca}
use k2a_token_sync.Reconcile.{
  Reconciler, PassState, Event, normal, warning, calling, on_status, emit,
}
use k2a_token_sync.Reconcile.Access.{ClusterAccess, client_from_token}
use k2a_token_sync.Reconcile.SelfCredential.{
  self_credential_due, failing_renewal, describe_deadline, renewed_deadline,
}
use k2a_token_sync.Reconcile.Status.{set_condition}

-- What renewSelfCredential returns: the condition reason and the error of a failure, or the
-- replacement that was stored.
pub data Renewed : Type 0 where
  renewed : Token → Renewed
  not_renewed : (reason : String) → Error → Renewed

module _ (rc : Reconciler) (cluster : Cluster) (held : ClusterAccess) where
  -- The labels that renewSelfCredential stores the credential under.
  abbrev pub credential_labels : Dict String
  credential_labels =
      ("app.kubernetes.io/managed-by", "k2a-token-sync")
      ∷ ("k2a-token-sync.io/cluster", cluster.name)
      ∷ []

  -- The replacement is used for one call, with the bundle that it will be stored with.
  unfoldable pub prove_replacement : Token → Action History (Unit {0})
  unfolding client_from_token cluster_ca server_url
  prove_replacement token = do
    client ←
        on_error (λ e. wrap "building a client for the replacement credential: " e "")
          (from_result (client_from_token rc.kube (server_url cluster) token.value held.ca))
    _ ←
        on_error (λ e. wrap "the replacement credential does not work: " e "")
          (cluster_ca rc.printer rc.kube client cluster.service_account.namespace)
    pure tt

  abbrev pub replacement : Token → Credentials
  replacement token = record { token = token.value; ca = held.ca; expires_at = token.expires_at }

  unfoldable pub store_replacement : Token → Action History (Unit {0})
  unfolding write_credentials credentials_secret_name
  store_replacement token =
      on_error (λ e. wrap "storing the replacement credential: " e "")
        (write_credentials rc.kube rc.printer local rc.namespace (credentials_secret_name cluster)
          (replacement token) credential_labels)

  abbrev pub after_store : Token → Result (Unit {0}) → Action History Renewed
  after_store token (err e) = pure (not_renewed reason_renewal_not_stored e)
  after_store token (ok _) = pure (renewed token)

  abbrev pub after_proof : Token → Result (Unit {0}) → Action History Renewed
  after_proof token (err e) = pure (not_renewed reason_renewal_unverified e)
  after_proof token (ok _) = do stored ← attempt (store_replacement token); after_store token stored

  abbrev pub after_mint : Result Token → Action History Renewed
  after_mint (err e) =
      pure (not_renewed reason_renewal_mint_failed (wrap "minting a replacement credential: " e ""))
  after_mint (ok token) = do proven ← attempt (prove_replacement token); after_proof token proven

  -- The calls of renewSelfCredential.
  unfoldable pub replace_self_credential : Action History Renewed
  unfolding mint_token prove_replacement store_replacement
  replace_self_credential = do
    minted ← attempt (
        mint_token rc.printer rc.kube held.client cluster.service_account.namespace
          cluster.self_service_account_name cluster.self_token_ttl)
    after_mint minted

  -- Both times, and only once the credential is stored.
  abbrev pub with_renewal : Time → Renewed → ClusterConnectionStatus → ClusterConnectionStatus
  with_renewal now (renewed token) status = record status {
    self_credential_expires_at = some token.expires_at;
    self_credential_issued_at = some now;
  }
  with_renewal now (not_renewed _ _) status = status

  -- renewSelfCredential
  unfoldable pub renew_self_credential : Time → Action PassState Renewed
  unfolding replace_self_credential
  renew_self_credential now = do
    r ← calling replace_self_credential
    on_status (with_renewal now r)
    pure r

  abbrev judged : Time → Bool → String → String → ClusterConnectionStatus → ClusterConnectionStatus
  judged now good reason message status =
      set_condition rc.conditions now status condition_self_credential_valid
        (if good then condition_true else condition_false) reason message status.observed_generation

  -- A recovery is recorded only where a failure was.
  abbrev pub report_recovery : Option String → Action PassState (Unit {0})
  report_recovery none s = (ok tt, s)
  report_recovery (some reason) s =
      emit
        (normal reason_renewal_recovered (
          concat (
            "renewed k2a-token-sync's own credential for this cluster, which had been failing to renew ("
            ∷ reason
            ∷ "); the replacement "
            ∷ renewed_deadline rc.printer s.status
            ∷ [])))
        s

  -- The transition, and a change of the reason.
  abbrev news : Option String → String → Bool
  news none reason = true
  news (some was) reason = not (was == reason)

  -- maintainSelfCredential, after the renewal: `was` is the reason under which it was failing.
  abbrev pub after_renewal : Time → Option String → Renewed → Action PassState (Unit {0})
  after_renewal now was (renewed token) = do
    on_status (judged now true reason_ready "renewed")
    report_recovery was
  after_renewal now was (not_renewed reason e) =
      let deadline = (describe_deadline rc.printer held.expires_at now).0 in
      let doomed = concat (
        e.text ∷ "; the credential in use " ∷ deadline
        ∷ ", after which this cluster has to be bootstrapped again" ∷ []) in
      do
        on_status (judged now false reason doomed)
        if news was reason
            then emit (
                warning reason
                  ("cannot renew k2a-token-sync's own credential for this cluster: " <> doomed))
            else pure tt

  -- maintainSelfCredential
  unfoldable pub maintain_self_credential : Time → Action PassState (Unit {0})
  unfolding self_credential_due failing_renewal describe_deadline renewed_deadline set_condition
      renew_self_credential concat
  maintain_self_credential now s =
      let issued_at = time_or_zero s.status.self_credential_issued_at in
      let was = failing_renewal rc.conditions s.status in
      (if self_credential_due cluster issued_at held.expires_at now
          then (do r ← renew_self_credential now; after_renewal now was r)
          else on_status (judged now true reason_ready "current, and not yet due for renewal"))
        s
