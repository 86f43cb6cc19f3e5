-- ===== src/Tests/Verdicts.antt =====
-- The theorems about verdicts and the recorded status, on a contested endpoint and on a pass.
use text.Mathlib.TextEquality.{eq_iff}
use k2a_token_sync.Inventory.Schema.{SchemaCheck}
use k2a_token_sync.Base.{◌↔◌, ◌≤◌, ◌≡◌, refl, Option, none, some, List, [], ◌∷◌, arith, string_dec}
use k2a_token_sync.Base.Int.{pos}
use k2a_token_sync.Errors.{Error}
use k2a_token_sync.Api.{ClusterConnectionStatus, empty_status}
use k2a_token_sync.Api.Conditions.{Condition, condition, condition_true}
use k2a_token_sync.Api.Reason.{condition_ready, reason_ready}
use k2a_token_sync.Config.{Cluster}
use k2a_token_sync.Inventory.{Entry, endpoint_of, secret_name_of, resolve_conflicts}
use k2a_token_sync.Inventory.Conflict.{holders, resolve_conflicts-exclusive}
use k2a_token_sync.Scheduler.Verdict.{rejected_status}
use k2a_token_sync.Scheduler.Verdict.Laws.{rejected_status-idempotent}
use k2a_token_sync.Scheduler.Pass.{settle_verdict}
use k2a_token_sync.Scheduler.Pass.Laws.{last_written, ShowsVerdict, settle_verdict-final}
use k2a_token_sync.Reconcile.SelfCredential.{self_credential_threatens_access}
use k2a_token_sync.Reconcile.Status.{cluster_pass}
use k2a_token_sync.Reconcile.Status.Laws.{NoThreat, ready_sound}
use k2a_token_sync.Tests.Conditions.{conditions, conditions-IsLawful}
use k2a_token_sync.Tests.Data.{plain, east, west, rival, held_back, cluster_of, noon, minute_later}

abbrev three : List Entry
three = east ∷ west ∷ rival ∷ []

resolve_conflicts-exclusive_example :
    (holders endpoint_of (resolve_conflicts plain three) "east:6443" ≤ 1)
    × (holders secret_name_of (resolve_conflicts plain three) "east:6443" ≤ 1)
resolve_conflicts-exclusive_example =
    resolve_conflicts-exclusive plain three "east:6443" (ground (arith, eq_iff "east:6443" ""))

-- The verdict on east was formed after its pass had written a status without it.
settle_verdict-final_example :
    let settled = settle_verdict conditions noon empty_status empty_status held_back in
    ShowsVerdict conditions conditions-IsLawful held_back empty_status
      (last_written empty_status settled)
    × ((settled.1 ≡ none) ↔ (last_written empty_status settled ≡ empty_status))
settle_verdict-final_example =
    settle_verdict-final conditions conditions-IsLawful noon empty_status empty_status held_back

rejected_status-idempotent_example :
    rejected_status conditions minute_later
      (rejected_status conditions noon empty_status held_back)
      held_back
    ≡ rejected_status conditions noon empty_status held_back
rejected_status-idempotent_example =
    rejected_status-idempotent conditions conditions-IsLawful held_back noon minute_later
      empty_status

abbrev east_cluster : Cluster
east_cluster = cluster_of "east" "east:6443" "cluster-east"

abbrev untouched : ClusterConnectionStatus → ClusterConnectionStatus × Option Error
untouched status = (status, none)

abbrev ready_now : Condition
ready_now =
    record (condition condition_ready condition_true reason_ready
      "ArgoCD holds a current credential for this cluster" (pos 1)) { last_transition_time = noon }

abbrev ready_status : ClusterConnectionStatus
ready_status = record empty_status {
  observed_generation = pos 1;
  secret = "argocd/cluster-east";
  last_sync_time = some noon;
  conditions = ready_now ∷ [];
}

-- A pass that had nothing to do.
ready_sound_example :
    (◌≡◌ {A = Option Error} none none) × NoThreat conditions noon east_cluster ready_status
unfolding cluster_pass conditions string_dec self_credential_threatens_access
ready_sound_example =
    ready_sound conditions conditions-IsLawful plain "argocd" noon east_cluster empty_status (pos 1)
      untouched ready_status none ready_now refl refl refl

-- A CRD that lacks one field of the status.
abbrev outdated : SchemaCheck
outdated = record {
  missing_spec_fields = [];
  missing_status_fields = "lastAction" ∷ [];
  unverifiable = none;
}
