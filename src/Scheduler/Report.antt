-- ===== src/Scheduler/Report.antt =====
-- What the scheduler tells the probes: publish, nextDueInLocked and reportLocked.
pub mod Laws
use k2a_token_sync.Base.{
  String, Bool, true, false, not, ◌&&◌, ◌||◌, Option, none, some, List, [], ◌∷◌, if◌then◌else◌,
  ◌==◌, leb_string,
}
use k2a_token_sync.Base.Int.{ℤ, pos, min_ℤ, max_ℤ, ltb_ℤ, eqb_ℤ}
use k2a_token_sync.Base.Dict.{Dict}
use k2a_token_sync.Time.{Time, Duration, sub, time_or_zero}
use k2a_token_sync.Api.Conditions.{
  Condition, ConditionStatus, condition_true, condition_false, condition_unknown, ConditionApi,
}
use k2a_token_sync.Api.Reason.{condition_ready}
use k2a_token_sync.Scheduler.{ClusterState, max_pass_interval}
use k2a_token_sync.Health.{ClusterReport, HealthState, record_clusters}

-- The loop of nextDueInLocked, from what it has found so far.
unfoldable pub next_due_from : Time → Duration → Dict ClusterState → Duration
next_due_from now next [] = next
next_due_from now next ((_, st) ∷ d) =
    let left = sub st.due_at now in
    let nearer = if ltb_ℤ left next then left else next in
    next_due_from now (if not (st.invalid_reason == "") || st.running then next else nearer) d

-- nextDueInLocked
unfoldable pub next_due_in : Time → Dict ClusterState → Duration
unfolding next_due_from
next_due_in now states = max_ℤ (next_due_from now max_pass_interval states) (pos 0)

abbrev pub is_true : ConditionStatus → Bool
is_true condition_true = true
is_true _ = false

abbrev pub reconciled_now : ClusterState → Bool
reconciled_now st =
    not (eqb_ℤ st.passed_generation (pos 0)) && eqb_ℤ st.passed_generation st.generation

-- The report's `synced` and `error`, from the Ready condition.
abbrev pub synced_and_error : ClusterState → Option Condition → Bool × String
synced_and_error st none = (false, "")
synced_and_error st (some c) =
    (reconciled_now st && is_true c.status, if is_true c.status then "" else c.message)

-- slices.SortFunc by name
unfoldable pub insert_report : ClusterReport → List ClusterReport → List ClusterReport
insert_report c [] = c ∷ []
insert_report c (d ∷ ds) = if leb_string c.name d.name then c ∷ d ∷ ds else d ∷ insert_report c ds

module _ (api : ConditionApi) where
  abbrev pub standing : ClusterState → Bool × String
  standing st =
      if not (st.invalid_reason == "")
      then (false, st.invalid_reason)
      else synced_and_error st (api.find st.status.conditions condition_ready)

  -- The body of reportLocked's loop.
  unfoldable pub cluster_report : ClusterState → ClusterReport
  cluster_report st = record {
    name = st.cluster.name;
    endpoint = st.cluster.endpoint;
    secret = st.status.secret;
    synced = (standing st).0;
    error = (standing st).1;
    last_action = st.status.last_action;
    synced_at = time_or_zero st.status.last_sync_time;
    due_at = st.due_at;
    token_expires_at = time_or_zero st.status.token_expires_at;
    self_credential_expires_at = time_or_zero st.status.self_credential_expires_at;
    serving_cert_expires_at = time_or_zero st.status.serving_cert_expires_at;
    serving_cert_days_remaining = st.status.serving_cert_days_remaining;
  }

  -- reportLocked
  unfoldable pub report_locked : Dict ClusterState → List ClusterReport
  unfolding cluster_report insert_report
  report_locked [] = []
  report_locked ((_, st) ∷ d) = insert_report (cluster_report st) (report_locked d)

  -- publish
  unfoldable pub publish : Time → Dict ClusterState → HealthState → HealthState
  unfolding report_locked next_due_in record_clusters
  publish now states health =
      record_clusters now (report_locked states) (next_due_in now states) health
