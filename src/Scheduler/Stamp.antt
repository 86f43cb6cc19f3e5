-- ===== src/Scheduler/Stamp.antt =====
-- setSchemaCondition: what writeStatus adds to every status on its way to the API server.
use k2a_token_sync.Base.{String, concat, Bool, Option, none, some, [], ◌∷◌, if◌then◌else◌}
use k2a_token_sync.Base.Int.{pos}
use k2a_token_sync.Time.{Time}
use k2a_token_sync.Errors.{Error}
use k2a_token_sync.Api.{ClusterConnectionStatus}
use k2a_token_sync.Api.Conditions.{
  Condition, ConditionStatus, condition_true, condition_false, condition_unknown, ConditionApi,
  condition,
}
use k2a_token_sync.Api.Reason.{
  condition_schema_current, reason_ready, reason_schema_outdated, reason_schema_unverified,
}
use k2a_token_sync.Inventory.Schema.{SchemaCheck, stale, missing}

-- A Condition whose ObservedGeneration is left at zero.
abbrev of_schema : ConditionStatus → String → String → Condition
of_schema value reason message = condition condition_schema_current value reason message (pos 0)

abbrev verifiable : SchemaCheck → Option Error → Condition
verifiable check (some e) = of_schema condition_unknown reason_schema_unverified (
    concat (
      "could not read the CRD to check it matches this build, so whether fields set here are being discarded is unknown: "
      ∷ e.text ∷ []))
verifiable check none =
    if stale check
    then of_schema condition_false reason_schema_outdated (
        concat (
          "the CRD is older than this build, so the API server discards these fields when they are set: "
          ∷ missing check
          ∷ ". Upgrade the k2a-token-sync-crds chart"
          ∷ []))
    else of_schema condition_true reason_ready "the ClusterConnection CRD matches this build"

-- The verdict of a check as a condition.
unfoldable pub schema_condition : SchemaCheck → Condition
unfolding stale missing concat
schema_condition check = verifiable check check.unverifiable

-- setSchemaCondition, with what schemaCheck of the health state answers
unfoldable pub set_schema_condition :
    ConditionApi → Time → SchemaCheck → Bool → ClusterConnectionStatus → ClusterConnectionStatus
unfolding schema_condition
set_schema_condition api now check checked status =
    if checked
    then record status { conditions = api.set now status.conditions (schema_condition check) }
    else status
