-- ===== src/Removal/Guards.antt =====
-- What cmd/remove.go finds out before it deletes anything: the flags, the names, the collision of
-- endpoints, and whose the two Secrets are.
use Prim.Native.String.{len}
use k2a_token_sync.Base.{
  String, ◌<>◌, concat, Bool, true, false, not, ◌&&◌, ◌||◌, Option, none, some, List, [], ◌∷◌,
  if◌then◌else◌, ◌==◌, ltb,
}
use k2a_token_sync.Base.Dict.{lookup, text_or_empty}
use k2a_token_sync.Errors.{Error, Result, ok, err, new_error, is_not_found}
use k2a_token_sync.Config.{Cluster, zero_cluster}
use k2a_token_sync.Config.Spec.{or_default}
use k2a_token_sync.Format.{Printer}
use k2a_token_sync.Inventory.{Entry}
use k2a_token_sync.Argocd.Publish.{foreign_managers}
use k2a_token_sync.Removal.{Found, is_managed}

-- validateRemoveFlags
unfoldable pub validate_remove_flags : String → String → String → Bool → Bool → Bool → Option Error
validate_remove_flags cluster_name from_kubeconfig from_context skip_downstream confirm dry_run =
    let selected = not (from_kubeconfig == "") || not (from_context == "") in
    if cluster_name == ""
    then some (new_error "--cluster is required")
    else if skip_downstream && selected
    then some (
        new_error
          "--skip-downstream and --from-kubeconfig/--from-context are mutually exclusive; choose one way to handle the downstream cluster")
    else if not skip_downstream && not selected
    then some (
        new_error
          "one of --from-kubeconfig or --from-context is required, to reach the downstream cluster being cleaned up, or pass --skip-downstream to remove only the local objects")
    else if not confirm && not dry_run
    then some (
        new_error
          "either --confirm or --dry-run is required: --confirm before anything is deleted, or --dry-run to preview the plan and change nothing")
    else none

-- config.RemovalClusterInput
pub record RemovalClusterInput : Type 0 where
  pub name : String
  pub service_account_name : String
  pub service_account_namespace : String
  pub self_service_account_name : String
  pub secret_name : String

-- config.RemovalCluster
unfoldable pub removal_cluster : Printer → RemovalClusterInput → Result Cluster
unfolding concat
removal_cluster p input =
    if input.name == ""
    then err (new_error "cluster name must not be empty")
    else if ltb 63 (len input.name)
    then err
        (new_error (concat ("cluster name " ∷ p.quote input.name ∷ " exceeds 63 characters" ∷ [])))
    else ok (record zero_cluster {
      name = input.name;
      secret_name = or_default input.secret_name ("cluster-" <> input.name);
      self_service_account_name = or_default input.self_service_account_name "k2a-token-sync";
      service_account = record {
        name = or_default input.service_account_name "argocd-manager";
        namespace = or_default input.service_account_namespace "kube-system";
      };
    })

-- What resolveRemovalCluster returns beside its error.
pub record Resolved : Type 0 where
  pub cluster : Cluster
  pub used_fallback : Bool
  pub fallback_reason : String

abbrev fallen_back : String → Result Cluster → Result Resolved
fallen_back reason (err e) = err e
fallen_back reason (ok c) =
    ok (record { cluster = c; used_fallback = true; fallback_reason = reason })

-- resolveRemovalCluster, on what Client.Get returned
unfoldable pub resolve_removal_cluster :
    Printer → Result Entry → RemovalClusterInput → Result Resolved
unfolding removal_cluster
resolve_removal_cluster p (err e) fallback =
    if is_not_found e then fallen_back "" (removal_cluster p fallback) else err e
resolve_removal_cluster p (ok entry) fallback =
    if not (entry.invalid_reason == "")
    then fallen_back entry.invalid_reason (removal_cluster p fallback)
    else ok (record { cluster = entry.cluster; used_fallback = false; fallback_reason = "" })

-- endpointCollision, on the entries that Client.List returned
unfoldable pub endpoint_collision : List Entry → String → String → String
endpoint_collision [] cluster_name endpoint = ""
endpoint_collision (e ∷ es) cluster_name endpoint =
    let rest = endpoint_collision es cluster_name endpoint in
    if e.cluster.endpoint == "" || e.cluster.name == cluster_name
    then rest
    else if e.cluster.endpoint == endpoint
    then e.cluster.name
    else rest

-- registrationTarget of cmd/bootstrap.go
pub data RegistrationTarget : Type 0 where
  target_absent target_ours target_foreign target_unreadable : RegistrationTarget

-- classifyRegistrationSecret
unfoldable pub classify_registration_secret : Result Found → RegistrationTarget
unfolding is_managed
classify_registration_secret (err e) = if is_not_found e then target_absent else target_unreadable
classify_registration_secret (ok found) = if is_managed found then target_ours else target_foreign

pub record ArgocdSecretRemovalGuard : Type 0 where
  pub target : RegistrationTarget
  pub belongs_to : String
  pub foreign : List String

abbrev cluster_key : String
cluster_key = "k2a-token-sync.io/cluster"

abbrev another : String → String → String
another owner cluster_name = if owner == cluster_name then "" else owner

abbrev guard_of : String → RegistrationTarget → Result Found → ArgocdSecretRemovalGuard
guard_of cluster_name target_ours (ok found) = record {
  target = target_ours;
  belongs_to = another (text_or_empty (lookup cluster_key found.annotations)) cluster_name;
  foreign = foreign_managers found.managers;
}
guard_of cluster_name target answer = record { target = target; belongs_to = ""; foreign = [] }

-- inspectArgoCDSecretForRemoval, on the server's answer
unfoldable pub inspect_argocd_secret_for_removal : String → Result Found → ArgocdSecretRemovalGuard
unfolding classify_registration_secret foreign_managers lookup
inspect_argocd_secret_for_removal cluster_name answer =
    guard_of cluster_name (classify_registration_secret answer) answer

abbrev pub is_unreadable : RegistrationTarget → Bool
is_unreadable target_unreadable = true
is_unreadable _ = false

abbrev belongs_text : Printer → String → String
belongs_text p owner = concat ("belongs to cluster " ∷ p.quote owner ∷ ", not this one" ∷ [])

abbrev owner_refusal : Printer → String → String
owner_refusal p owner = if owner == "" then "" else belongs_text p owner

-- argocdSecretRemovalGuard.refusalReason
unfoldable pub argocd_refusal_reason : Printer → ArgocdSecretRemovalGuard → String
unfolding concat
argocd_refusal_reason p g = elim g.target [
  | target_foreign ↦ "not managed by k2a-token-sync"
  | target_unreadable ↦ "could not be read, so whether it is this cluster's is unknown"
  | _ ↦ owner_refusal p g.belongs_to
]

pub record CredentialSecretRemovalGuard : Type 0 where
  pub not_owned : Bool
  pub belongs_to : String
  pub verify_error : Option Error

-- inspectCredentialSecretForRemoval, on the server's answer
unfoldable pub inspect_credential_secret_for_removal :
    String → Result Found → CredentialSecretRemovalGuard
unfolding is_managed lookup
inspect_credential_secret_for_removal cluster_name (err e) =
    if is_not_found e
    then record { not_owned = false; belongs_to = ""; verify_error = none }
    else record { not_owned = false; belongs_to = ""; verify_error = some e }
inspect_credential_secret_for_removal cluster_name (ok found) =
    if not (is_managed found)
    then record { not_owned = true; belongs_to = ""; verify_error = none }
    else record {
      not_owned = false;
      belongs_to = another (text_or_empty (lookup cluster_key found.labels)) cluster_name;
      verify_error = none;
    }

-- credentialSecretRemovalGuard.refusalReason
unfoldable pub credential_refusal_reason : Printer → CredentialSecretRemovalGuard → String
unfolding concat
credential_refusal_reason p g =
    if g.not_owned then "not managed by k2a-token-sync" else elim g.verify_error [
      | some e ↦ "could not verify which cluster it belongs to: " <> e.text
      | none ↦ owner_refusal p g.belongs_to
    ]
