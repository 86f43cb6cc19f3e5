-- ===== src/Scheduler/Verdict.antt =====
-- The verdict that is laid over a status while a cluster is not being reconciled: rejectedStatus,
-- verdictFor and their helpers.
pub mod Laws
use k2a_token_sync.Base.{String, ◌<>◌, Bool, true, false, ◌||◌, List, if◌then◌else◌, ◌==◌}
use k2a_token_sync.Time.{Time}
use k2a_token_sync.Api.{ClusterConnectionStatus}
use k2a_token_sync.Api.Conditions.{
  Condition, ConditionStatus, condition_true, condition_false, ConditionApi, condition,
}
use k2a_token_sync.Api.Equality.{deep_equal}
use k2a_token_sync.Api.Reason.{
  condition_ready, condition_conflict, reason_invalid_spec, reason_secret_name_conflict,
  reason_endpoint_conflict,
}
use k2a_token_sync.Scheduler.{ClusterState}

-- verdictCause
unfoldable pub verdict_cause : ClusterState → String
verdict_cause st = if st.invalid_cause == "" then reason_invalid_spec else st.invalid_cause

-- namesAnotherConnection
unfoldable pub names_another_connection : String → Bool
names_another_connection reason =
    reason == reason_secret_name_conflict || reason == reason_endpoint_conflict

module _ (api : ConditionApi) where
  -- setRejectedCondition, on the conditions of the status
  abbrev pub set_rejected_condition :
      Time → List Condition → String → ConditionStatus → String → ClusterState → List Condition
  set_rejected_condition now cs kind value reason st =
      api.set now cs (condition kind value reason st.invalid_reason st.generation)

  -- rejectedStatus. One clock reading serves both calls of SetStatusCondition.
  unfoldable pub rejected_status :
      Time → ClusterConnectionStatus → ClusterState → ClusterConnectionStatus
  unfolding verdict_cause names_another_connection
  rejected_status now status st =
      let reason = verdict_cause st in
      let cs =
        set_rejected_condition now status.conditions condition_ready condition_false reason st in
      record status {
        observed_generation = st.generation;
        last_action = "not reconciled: " <> st.invalid_reason;
        conditions =
            if names_another_connection reason
            then set_rejected_condition now cs condition_conflict condition_true reason st
            else api.remove cs condition_conflict;
      }

  -- What a status says once the current verdict, if there is one, is laid over it.
  abbrev pub overlay : Time → ClusterConnectionStatus → ClusterState → ClusterConnectionStatus
  overlay now status st = if st.invalid_reason == "" then status else rejected_status now status st

  -- The status that verdictFor wants written, and the state afterwards.
  pub record Answer : Type 0 where
    pub state : ClusterState
    pub desired : ClusterConnectionStatus
    pub needed : Bool

  -- verdictFor. Where there is no verdict the code answers with the zero status, which no caller
  -- reads; the model answers with the status itself.
  unfoldable pub verdict_for : Time → ClusterState → Answer
  unfolding rejected_status
  verdict_for now st =
      let desired = rejected_status now st.status st in
      if st.invalid_reason == ""
      then record { state = st; desired = st.status; needed = false }
      else if deep_equal desired st.status
      then record { state = st; desired = desired; needed = false }
      else record { state = record st { status = desired }; desired = desired; needed = true }
