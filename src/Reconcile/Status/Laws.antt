-- ===== src/Reconcile/Status/Laws.antt =====
-- What the recorded status can be relied on for.
use text.Mathlib.TextEquality.{eq_iff}
use k2a_token_sync.Base.{
  String, ◌≡◌, ◌↔◌, ◌⊎◌, ◌||◌, refl, ap, sym, subst, ◌∙◌, Bool, true, false, Option, none, some,
  List, arith,
}
use k2a_token_sync.Base.Int.{ℤ}
use k2a_token_sync.Time.{Time, time_or_zero}
use k2a_token_sync.Errors.{
  Error, is_sentinel, is_forbidden, err_no_credential, err_credential_expired,
  err_certificate_invalid, err_credential_rejected, err_credential_replaced, err_role_ref_immutable,
}
use k2a_token_sync.Api.{ClusterConnectionStatus}
use k2a_token_sync.Api.Conditions.{
  Condition, ConditionStatus, condition_true, condition_false, ConditionApi, IsLawful, condition,
}
use k2a_token_sync.Api.Reason.{
  condition_ready, condition_self_credential_valid, reason_endpoint_unreachable, reason_ready,
  reason_awaiting_credential, reason_credential_expired, reason_certificate_invalid,
  reason_credential_rejected, reason_credential_replaced, reason_role_ref_immutable,
  reason_permission_denied, reason_reconcile_failed,
}
use k2a_token_sync.Argocd.{Fingerprint}
use k2a_token_sync.Config.{Cluster}
use k2a_token_sync.Format.{Printer}
use k2a_token_sync.Reconcile.SelfCredential.{
  failing_renewal, self_credential_critical, self_credential_threatens_access,
}
use k2a_token_sync.Reconcile.Status.{
  fingerprint_from, record_fingerprint, reason_for, cluster_pass, conclude, set_condition,
  succeeded,
}

-- The fingerprint read back from a status is the one that was recorded in it.
pub fingerprint-roundtrip :
    (status : ClusterConnectionStatus) (f : Fingerprint)
    → fingerprint_from (record_fingerprint status f) ≡ f
unfolding fingerprint_from record_fingerprint
fingerprint-roundtrip status f = refl

-- The sentinels that name a cause of their own.
abbrev pub names_a_cause : Error → Bool
names_a_cause e =
    is_sentinel e err_no_credential
    || is_sentinel e err_credential_expired
    || is_sentinel e err_certificate_invalid
    || is_sentinel e err_credential_rejected
    || is_sentinel e err_credential_replaced
    || is_sentinel e err_role_ref_immutable
    || is_forbidden e

-- A failure is reported as an unreachable endpoint exactly where the transport failed and no more
-- specific cause is known.
pub reason_for-unreachable :
    (e : Error)
    → (reason_for e ≡ reason_endpoint_unreachable)
      ↔ ((e.transport ≡ true) × (names_a_cause e ≡ false))
unfolding reason_for
reason_for-unreachable e =
    let u = reason_endpoint_unreachable in
    (
      λ h. ground (
        arith,
        eq_iff reason_awaiting_credential u,
        eq_iff reason_credential_expired u,
        eq_iff reason_certificate_invalid u,
        eq_iff reason_credential_rejected u,
        eq_iff reason_credential_replaced u,
        eq_iff reason_role_ref_immutable u,
        eq_iff reason_permission_denied u,
        eq_iff reason_reconcile_failed u,
      ),
      λ h. ground arith,
    )

-- The tool's own credential is no threat to access.
abbrev pub NoThreat : ConditionApi → Time → Cluster → ClusterConnectionStatus → Type 0
NoThreat api now cluster status =
    (failing_renewal api status ≡ none)
    ⊎ (self_credential_critical cluster (time_or_zero status.self_credential_issued_at)
          (time_or_zero status.self_credential_expires_at) now
        ≡ false)

module _ (api : ConditionApi) (law : IsLawful api) (p : Printer) where
  set_condition-status :
      (now : Time) (cs : List Condition) (kind : String) (state : ConditionStatus)
      (reason message : String) (generation : ℤ) (c : Condition)
      → api.find (api.set now cs (condition kind state reason message generation)) kind ≡ some c
      → c.status ≡ state
  set_condition-status now cs kind state reason message generation c found =
      let (d, there, agrees) =
        law.find-set_self now cs (condition kind state reason message generation) in
      ground (arith, there, found, agrees)

  find-set_ready :
      (now : Time) (cs : List Condition) (state : ConditionStatus) (reason message : String)
      (generation : ℤ)
      → api.find
          (api.set now cs (condition condition_ready state reason message generation))
          condition_self_credential_valid
        ≡ api.find cs condition_self_credential_valid
  find-set_ready now cs state reason message generation =
      law.find-set_other now cs (condition condition_ready state reason message generation)
        condition_self_credential_valid
        (ground (arith, eq_iff condition_self_credential_valid condition_ready))

  module _ (now : Time) (cluster : Cluster) where
    not_threatened :
        (status : ClusterConnectionStatus)
        → self_credential_threatens_access p api cluster status now ≡ none
        → NoThreat api now cluster status
    unfolding self_credential_threatens_access
    not_threatened status h = ground arith

    succeeded_sound :
        (generation : ℤ) (synced : ClusterConnectionStatus) (threat : Option (String × String))
        (c : Condition)
        → self_credential_threatens_access p api cluster synced now ≡ threat
        → api.find (succeeded api now generation synced threat).conditions condition_ready ≡ some c
        → c.status ≡ condition_true
        → NoThreat api now cluster (succeeded api now generation synced threat)
    unfolding set_condition failing_renewal
    succeeded_sound generation synced (some (reason, message)) c e found isTrue =
        let bad =
          set_condition-status now synced.conditions condition_ready condition_false reason message
            generation c found in
        cc
    succeeded_sound generation synced none c e found isTrue =
        rw
          (find-set_ready now synced.conditions condition_true reason_ready
            "ArgoCD holds a current credential for this cluster" generation)
          (not_threatened synced e)

    conclude_sound :
        (generation : ℤ) (status : ClusterConnectionStatus) (outcome : Option Error) (c : Condition)
        → let (final, result) = conclude api p now cluster generation status outcome in
          api.find final.conditions condition_ready ≡ some c
          → c.status ≡ condition_true
          → (result ≡ none) × NoThreat api now cluster final
    unfolding conclude
    conclude_sound generation status (some e) c found isTrue =
        let bad =
          set_condition-status now status.conditions condition_ready condition_false (reason_for e)
            e.text generation c found in
        cc
    conclude_sound generation status none c found isTrue =
        let synced = record status { last_sync_time = some now } in
        (
          refl,
          succeeded_sound generation synced
              (self_credential_threatens_access p api cluster synced now) c refl found isTrue,
        )

  -- A status that comes out of a pass with Ready=True means that the pass returned no error and
  -- that no failing renewal has brought the tool's own credential near its end, for any lawful set
  -- of condition functions and any body of the pass.
  pub ready_sound :
      (argocd_namespace : String) (now : Time) (cluster : Cluster) (prior : ClusterConnectionStatus)
      (generation : ℤ)
      (reconcile : ClusterConnectionStatus → ClusterConnectionStatus × Option Error)
      (status : ClusterConnectionStatus) (outcome : Option Error) (c : Condition)
      → cluster_pass api p argocd_namespace now cluster prior generation reconcile
        ≡ (status, outcome)
      → api.find status.conditions condition_ready ≡ some c
      → c.status ≡ condition_true
      → (outcome ≡ none) × NoThreat api now cluster status
  unfolding cluster_pass
  ready_sound argocd_namespace now cluster prior generation reconcile status outcome c left found
        isTrue =
      let final = ap (λ r. r.0) left in
      let sound =
        conclude_sound now cluster generation _ _ c
          (ap (λ st. api.find st.conditions condition_ready) final ∙ found) isTrue in
      (sym (ap (λ r. r.1) left) ∙ sound.0, subst (NoThreat api now cluster) final sound.1)
