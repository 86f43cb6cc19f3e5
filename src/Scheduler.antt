-- ===== src/Scheduler.antt =====
-- cmd/scheduler.go: what the scheduler remembers of each cluster, and the constants of its timing.
-- The logger and the events are output only; the mutex makes each function of the child modules one
-- atomic step.
pub mod Verdict
pub mod Interval
pub mod Poll
pub mod Pass
pub mod Stamp
pub mod System
pub mod Report
use k2a_token_sync.Base.{String, Bool, false}
use k2a_token_sync.Base.Int.{ℤ, pos}
use k2a_token_sync.Time.{Time, Duration}
use k2a_token_sync.Api.{ClusterConnectionStatus, empty_status}
use k2a_token_sync.Config.{Cluster, zero_cluster}

pub record ClusterState : Type 0 where
  pub cluster : Cluster
  pub generation : ℤ
  pub status : ClusterConnectionStatus
  pub due_at : Time
  pub backoff : Duration
  pub running : Bool
  pub departed : Bool
  pub passed_generation : ℤ
  pub invalid_reason : String
  pub invalid_cause : String
  pub rerun_after_pass : Bool

-- 30 s
abbrev pub poll_interval : Duration
poll_interval = pos 30000000000

-- 5 min
abbrev pub max_pass_interval : Duration
max_pass_interval = pos 300000000000

-- 1 min
abbrev pub min_pass_interval : Duration
min_pass_interval = pos 60000000000

-- 1 min
abbrev pub retry_interval : Duration
retry_interval = pos 60000000000

-- 30 min
abbrev pub max_retry_interval : Duration
max_retry_interval = pos 1800000000000

-- 5 min
abbrev pub cluster_timeout : Duration
cluster_timeout = pos 300000000000

-- pollInterval / 2
abbrev pub due_slack : Duration
due_slack = pos 15000000000

-- &clusterState{dueAt: now, backoff: retryInterval}
unfoldable pub new_state : Time → ClusterState
new_state now = record {
  cluster = zero_cluster;
  generation = pos 0;
  status = empty_status;
  due_at = now;
  backoff = retry_interval;
  running = false;
  departed = false;
  passed_generation = pos 0;
  invalid_reason = "";
  invalid_cause = "";
  rerun_after_pass = false;
}
