-- ===== src/Tests/Passes.antt =====
-- The theorems about a pass, on servers that grant every request.
use text.Mathlib.TextEquality.{eq_iff}
use k2a_token_sync.Base.{some, ◌≡◌, refl, true, none, [], if◌then◌else◌, length, string_dec, arith}
use k2a_token_sync.Base.Int.{◌-ℤ◌}
use k2a_token_sync.Time.{int64, sub}
use k2a_token_sync.Downstream.Probe.{handshake_with}
use k2a_token_sync.Errors.{Error, Result, ok, err, is_sentinel, err_credential_replaced}
use k2a_token_sync.Action.{◌>>=◌, pure, on_error, from_result, attempt}
use k2a_token_sync.Api.{empty_status}
use k2a_token_sync.Api.Reason.{reason_credential_replaced}
use k2a_token_sync.Argocd.{ClusterSecret}
use k2a_token_sync.Argocd.Refresh.{needs_refresh, credential_replaced, unrecorded}
use k2a_token_sync.Argocd.Publish.{Registration}
use k2a_token_sync.Kube.{by_token, send}
use k2a_token_sync.Kube.Trace.{Licensed}
use k2a_token_sync.Downstream.Token.{Token}
use k2a_token_sync.Reconcile.{Reconciler, PassState, calling, on_status, emit}
use k2a_token_sync.Reconcile.Access.{ClusterAccess}
use k2a_token_sync.Reconcile.SelfCredential.{failing_renewal}
use k2a_token_sync.Reconcile.Renewal.{replace_self_credential, maintain_self_credential}
use k2a_token_sync.Reconcile.Renewal.Laws.{verdict_in, due_now, maintain-reports}
use k2a_token_sync.Reconcile.Status.{fingerprint_from, reason_for}
use k2a_token_sync.Reconcile.Pass.{reconcile, starting}
use k2a_token_sync.Reconcile.Publication.{desired_secret, publish, settle_publication}
use k2a_token_sync.Reconcile.Pass.Guarantees.{
  ProvenOnly, UsedOnly, CredentialFirst, reconcile-ProvenOnly, reconcile-UsedOnly,
  reconcile-CredentialFirst,
}
use k2a_token_sync.Reconcile.Pass.Outcome.{Published, publish-Published, settle-overwritten}
use k2a_token_sync.Tests.Conditions.{conditions, conditions-IsLawful}
use k2a_token_sync.Tests.Data.{minute_later, noon, hour_later}
use k2a_token_sync.Tests.World.{granting, once, reconciler_of, managed}

abbrev rc : Reconciler
rc = reconciler_of granting

abbrev first_pass : Result (Unit {0}) × PassState
first_pass = reconcile rc managed noon (starting [] empty_status)

reconcile-ProvenOnly_example : Licensed (ProvenOnly rc managed) first_pass.1.history
reconcile-ProvenOnly_example = reconcile-ProvenOnly rc managed noon empty_status (once granting)

reconcile-UsedOnly_example : Licensed (UsedOnly rc managed) first_pass.1.history
reconcile-UsedOnly_example = reconcile-UsedOnly rc managed noon empty_status (once granting)

reconcile-CredentialFirst_example :
    Licensed (CredentialFirst rc managed (fingerprint_from empty_status)) first_pass.1.history
reconcile-CredentialFirst_example =
    reconcile-CredentialFirst rc managed noon empty_status (once granting)

-- The pass reads the credential and the bundle, renews the credential, looks at the identity, probes,
-- and publishes.
calls_made : length first_pass.1.history ≡ 13
unfolding reconcile ◌>>=◌ calling on_error send from_result string_dec pure on_status int64 ◌-ℤ◌ sub
    attempt conditions handshake_with emit
calls_made = refl

abbrev fresh : Token
fresh = record { value = "fresh-token"; expires_at = hour_later }

abbrev wanted : ClusterSecret
wanted = record (desired_secret rc managed noon "CA" empty_status) {
  bearer_token = "fresh-token";
  token_expires_at = hour_later;
  token_issued_at = noon;
}

abbrev published : Result (Unit {0}) × PassState
published = publish rc managed noon unrecorded fresh wanted (starting [] empty_status)

publish-Published_example : Published rc managed noon unrecorded wanted published.1
unfolding publish ◌>>=◌ calling on_error send from_result string_dec pure on_status emit conditions
publish-Published_example =
    publish-Published rc managed noon unrecorded fresh wanted (starting [] empty_status) published.1
      refl

abbrev observed : Registration
observed = record { credential_hash = "somebody else's"; foreign_managers = [] }

-- A minute later the other credential is still there.
settle-overwritten_example :
    let x =
      settle_publication rc managed noon unrecorded fresh wanted "mine" observed
        (starting [] empty_status) in
    (e : Error) × (x.0 ≡ err e)
    × (is_sentinel e err_credential_replaced ≡ true)
    × (reason_for e ≡ reason_credential_replaced)
    × (needs_refresh rc.digest
          (fingerprint_from x.1.status)
          "somebody else's"
          wanted
          managed.token_ttl
          minute_later
        ≡ some credential_replaced)
settle-overwritten_example =
    settle-overwritten rc managed noon unrecorded fresh wanted "mine" observed
      (starting [] empty_status) (ground (arith, eq_iff "somebody else's" "mine"))
      (ground (arith, eq_iff "somebody else's" "")) (ground (arith, eq_iff "mine" "")) wanted
      managed.token_ttl minute_later

abbrev held : ClusterAccess
held = record {
  client = by_token "https://east:6443" "own-token" "CA";
  ca = "CA";
  expires_at = hour_later;
}

maintain-reports_example :
    let after = maintain_self_credential rc managed held noon (starting [] empty_status) in
    (after.0 ≡ ok tt)
    × (failing_renewal conditions after.1.status ≡ (
        if due_now rc managed held noon (starting [] empty_status)
        then verdict_in rc managed held noon (replace_self_credential rc managed held []).0
        else none))
maintain-reports_example =
    maintain-reports rc managed held noon conditions-IsLawful (starting [] empty_status)
