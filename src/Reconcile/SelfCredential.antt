-- ===== src/Reconcile/SelfCredential.antt =====
-- When the tool's own credential is replaced, and when a failing renewal threatens access:
-- selfCredentialDue, selfCredentialCritical, failingRenewal, describeDeadline, renewedDeadline and
-- selfCredentialThreatensAccess.
pub mod Laws
use k2a_token_sync.Base.{
  String, ◌<>◌, concat, Bool, true, false, not, ◌||◌, Option, none, some, List, [], ◌∷◌,
  if◌then◌else◌,
}
use k2a_token_sync.Base.Int.{ℤ, pos, ◌-ℤ◌, quot_ℤ, max_ℤ, leb_ℤ, ltb_ℤ}
use k2a_token_sync.Time.{Time, Duration, is_zero, time_or_zero, sub, add, before, int64}
use k2a_token_sync.Api.{ClusterConnectionStatus}
use k2a_token_sync.Api.Conditions.{
  Condition, condition_true, condition_false, condition_unknown, ConditionStatus, ConditionApi,
}
use k2a_token_sync.Api.Reason.{condition_self_credential_valid, reason_self_credential_expiring}
use k2a_token_sync.Config.{Cluster}
use k2a_token_sync.Format.{Printer}

-- 24 h
abbrev pub self_renew_interval : Duration
self_renew_interval = pos 86400000000000

-- selfCredentialDue
unfoldable pub self_credential_due : Cluster → Time → Time → Time → Bool
self_credential_due cluster issued_at expires_at now =
    if is_zero expires_at
    then true
    else if is_zero issued_at
    then leb_ℤ self_renew_interval (int64 (cluster.self_token_ttl -ℤ sub expires_at now))
    else leb_ℤ self_renew_interval (sub now issued_at)
      || not (before now (add issued_at (quot_ℤ (sub expires_at issued_at) 2)))

-- selfCredentialCritical
unfoldable pub self_credential_critical : Cluster → Time → Time → Time → Bool
self_credential_critical cluster issued_at expires_at now =
    if is_zero expires_at
    then true
    else let granted =
        if is_zero issued_at then cluster.self_token_ttl else sub expires_at issued_at in
      ltb_ℤ (sub expires_at now) (max_ℤ (quot_ℤ granted 4) self_renew_interval)

abbrev pub is_false : ConditionStatus → Bool
is_false condition_false = true
is_false _ = false

-- failingRenewal: the reason where renewal is failing
abbrev pub failing_reason : Option Condition → Option String
failing_reason none = none
failing_reason (some c) = if is_false c.status then some c.reason else none

unfoldable pub failing_renewal : ConditionApi → ClusterConnectionStatus → Option String
failing_renewal api status =
    failing_reason (api.find status.conditions condition_self_credential_valid)

module _ (p : Printer) where
  -- describeDeadline: the deadline and what remains
  unfoldable pub describe_deadline : Time → Time → String × String
  describe_deadline expires_at now =
      let left = p.duration (p.round_minute (sub expires_at now)) in
      if is_zero expires_at
      then ("has no recorded expiry, so how long it has left is unknown", "unknown")
      else (concat ("expires " ∷ p.rfc3339 expires_at ∷ ", in " ∷ left ∷ []), left)

  abbrev renewed_text : Option Time → String
  renewed_text none = "has no recorded expiry"
  renewed_text (some t) = "expires " <> p.rfc3339 t

  -- renewedDeadline
  unfoldable pub renewed_deadline : ClusterConnectionStatus → String
  renewed_deadline status = renewed_text status.self_credential_expires_at

  -- selfCredentialThreatensAccess: the reason and the message where it does
  unfoldable pub self_credential_threatens_access :
      ConditionApi → Cluster → ClusterConnectionStatus → Time → Option (String × String)
  unfolding self_credential_critical describe_deadline failing_renewal
  self_credential_threatens_access api cluster status now =
      let issued_at = time_or_zero status.self_credential_issued_at in
      let expires_at = time_or_zero status.self_credential_expires_at in
      let deadline = (describe_deadline expires_at now).0 in
      elim (failing_renewal api status) [
        | none ↦ none
        | some _ ↦
            if self_credential_critical cluster issued_at expires_at now
            then some (
              reason_self_credential_expiring,
              concat (
                  "ArgoCD still holds a usable credential, but k2a-token-sync cannot renew its own and that one "
                  ∷ deadline ∷ "; see the SelfCredentialValid condition" ∷ []),
            )
            else none
      ]
