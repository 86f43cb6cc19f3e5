-- ===== src/Health.antt =====
-- cmd/health.go: what the probes and /status are answered from. The mutex makes each function one
-- atomic step. Where a function reads the clock twice, the model reads it once.
pub mod Laws
pub mod History
use k2a_token_sync.Base.{
  String, Bool, true, false, not, ◌&&◌, Option, none, some, List, [], ◌∷◌, ◌++◌, if◌then◌else◌,
  is_nil, all,
}
use k2a_token_sync.Base.Int.{ℤ, pos, min_ℤ, leb_ℤ}
use k2a_token_sync.Base.Dict.{Dict, insert, erase}
use k2a_token_sync.Time.{Time, Duration, zero_time, sub, add}
use k2a_token_sync.Errors.{Error}
use k2a_token_sync.Inventory.Schema.{SchemaCheck, stale}
use k2a_token_sync.Scheduler.{poll_interval, cluster_timeout}

pub record ClusterReport : Type 0 where
  pub name : String
  pub endpoint : String
  pub secret : String
  pub synced : Bool
  pub error : String
  pub last_action : String
  pub synced_at : Time
  pub due_at : Time
  pub token_expires_at : Time
  pub self_credential_expires_at : Time
  pub serving_cert_expires_at : Time
  pub serving_cert_days_remaining : ℤ

-- 10 * pollInterval
abbrev pub max_progress_age : Duration
max_progress_age = pos 300000000000

-- 1 min
abbrev pub pass_grace : Duration
pass_grace = pos 60000000000

-- clusterTimeout + passGrace
abbrev pub pass_limit : Duration
pass_limit = pos 360000000000

pub record HealthState : Type 0 where
  pub next_attempt_at : Time
  pub clusters : List ClusterReport
  pub last_success_at : Time
  pub ready : Bool
  pub polled_at : Time
  pub passes : Dict Time
  pub schema : SchemaCheck
  pub schema_checked : Bool

-- newHealthState
unfoldable pub new_health_state : Time → HealthState
new_health_state now = record {
  next_attempt_at = zero_time;
  clusters = [];
  last_success_at = zero_time;
  ready = false;
  polled_at = now;
  passes = [];
  schema = record { missing_spec_fields = []; missing_status_fields = []; unverifiable = none };
  schema_checked = false;
}

-- recordSchema
unfoldable pub record_schema : SchemaCheck → HealthState → HealthState
record_schema check s = record s { schema = check; schema_checked = true }

-- schemaCheck
unfoldable pub schema_check : HealthState → SchemaCheck × Bool
schema_check s = (s.schema, s.schema_checked)

-- recordPoll
unfoldable pub record_poll : Time → HealthState → HealthState
record_poll now s = record s { polled_at = now }

-- passStarted
unfoldable pub pass_started : String → Time → HealthState → HealthState
unfolding insert
pass_started cluster started_at s = record s { passes = insert cluster started_at s.passes }

-- passFinished
unfoldable pub pass_finished : String → HealthState → HealthState
unfolding erase
pass_finished cluster s = record s { passes = erase cluster s.passes }

abbrev is_synced : ClusterReport → Bool
is_synced c = c.synced

-- record
unfoldable pub record_clusters : Time → List ClusterReport → Duration → HealthState → HealthState
unfolding all
record_clusters now clusters next_due_in s = record s {
  clusters = clusters;
  next_attempt_at = add now (min_ℤ next_due_in poll_interval);
  ready = all is_synced clusters;
  last_success_at = if all is_synced clusters then now else s.last_success_at;
}

-- isLive
unfoldable pub is_live : Time → HealthState → Bool
unfolding all
is_live now s =
    leb_ℤ (sub now s.polled_at) max_progress_age
    && all (λ (_, started_at). leb_ℤ (sub now started_at) pass_limit) s.passes

-- isReady
unfoldable pub is_ready : HealthState → Bool
is_ready s = s.ready

pub record SchemaReport : Type 0 where
  pub current : Bool
  pub missing_fields : List String
  pub unverified : String

pub record StatusReport : Type 0 where
  pub ready : Bool
  pub last_success_at : Time
  pub next_attempt_at : Time
  pub schema : SchemaReport
  pub clusters : List ClusterReport

abbrev error_text : Option Error → String
error_text none = ""
error_text (some e) = e.text

-- report
unfoldable pub report : HealthState → StatusReport
unfolding stale
report s = record {
  ready = s.ready;
  last_success_at = s.last_success_at;
  next_attempt_at = s.next_attempt_at;
  schema = record {
    current = s.schema_checked && is_nil s.schema.unverifiable && not (stale s.schema);
    missing_fields =
        if stale s.schema
        then s.schema.missing_spec_fields ++ s.schema.missing_status_fields
        else [];
    unverified = error_text s.schema.unverifiable;
  };
  clusters = s.clusters;
}
