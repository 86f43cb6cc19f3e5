-- ===== src/Scheduler/Pass.antt =====
-- The atomic steps of a pass: reconcileOne, settleVerdict and releaseCluster, cut where the code
-- gives the lock back or calls out.
pub mod Laws
pub mod Margin
use k2a_token_sync.Base.{String, Bool, true, false, not, Option, none, some, if◌then◌else◌, ◌==◌}
use k2a_token_sync.Base.Int.{ℤ, mul_ℤ, min_ℤ}
use k2a_token_sync.Time.{Time, Duration, int64, add}
use k2a_token_sync.Api.{ClusterConnectionStatus}
use k2a_token_sync.Api.Conditions.{ConditionApi}
use k2a_token_sync.Api.Equality.{deep_equal}
use k2a_token_sync.Api.Reason.{condition_conflict}
use k2a_token_sync.Config.{Cluster}
use k2a_token_sync.Scheduler.{ClusterState, retry_interval, max_retry_interval}
use k2a_token_sync.Scheduler.Interval.{due_after_pass}
use k2a_token_sync.Scheduler.Poll.{blocked_reason}
use k2a_token_sync.Scheduler.Verdict.{rejected_status, overlay}

-- What a pass reads under the lock before it calls the reconciler.
pub record Snapshot : Type 0 where
  pub cluster : Cluster
  pub generation : ℤ
  pub prior : ClusterConnectionStatus

module _ (api : ConditionApi) where
  unfoldable pub snapshot : ClusterState → Snapshot
  snapshot st = record {
    cluster = st.cluster;
    generation = st.generation;
    prior = record st.status { conditions = api.remove st.status.conditions condition_conflict };
  }

  -- The first hold of the lock in reconcileOne: none where the pass is abandoned.
  unfoldable pub begin_pass : ClusterState → ClusterState × Option Snapshot
  unfolding snapshot blocked_reason
  begin_pass st =
      if not (blocked_reason st == "")
      then (st, none)
      else (record st { rerun_after_pass = false }, some (snapshot st))

  -- The second hold: the status to write, with the verdict that may have been formed meanwhile.
  unfoldable pub status_to_write :
      Time → ClusterConnectionStatus → ClusterState → ClusterConnectionStatus
  unfolding rejected_status
  status_to_write now reconciled st = overlay api now reconciled st

  -- settleVerdict: the state, and the status to hand to writeStatus again if the verdict has changed
  -- since. What writeStatus adds on its way out is in Stamp; no state keeps it.
  unfoldable pub settle_verdict :
      Time
      → ClusterConnectionStatus
      → ClusterConnectionStatus
      → ClusterState
      → ClusterState × Option ClusterConnectionStatus
  unfolding rejected_status
  settle_verdict now reconciled written st =
      let desired = overlay api now reconciled st in
      if deep_equal desired written
      then (st, none)
      else (record st { status = desired }, some desired)

-- The third hold: what the pass's end does to the schedule. `failed` says that the reconciler
-- returned an error.
unfoldable pub record_pass :
    Time → Time → ClusterConnectionStatus → Bool → ℤ → ClusterState → ClusterState
unfolding due_after_pass
record_pass started_at now status true generation st = record st {
  status = status;
  rerun_after_pass = false;
  due_at = if st.rerun_after_pass then now else add now st.backoff;
  backoff = min_ℤ (int64 (mul_ℤ st.backoff 2)) max_retry_interval;
}
record_pass started_at now status false generation st = record st {
  status = status;
  rerun_after_pass = false;
  due_at = if st.rerun_after_pass then now else due_after_pass started_at status;
  backoff = retry_interval;
  passed_generation = generation;
}

-- releaseCluster
unfoldable pub release_cluster : ClusterState → ClusterState
release_cluster st = record st { running = false }
