-- ===== src/Removal.antt =====
-- The removal of one object: internal/downstream/remove.go, and removeClusterConnection and
-- removeOwnedSecret of cmd/remove.go. The API servers are a parameter: what they answer may depend on
-- everything that was asked before. Objects of the cluster that runs Argo CD and of the downstream
-- cluster have different kinds, so one trace holds the calls to both.
pub mod Guards
pub mod Report
pub mod Teardown
pub mod Laws
pub mod Safety
pub mod Fallback
use k2a_token_sync.Base.{
  String, ◌<>◌, concat, Bool, true, not, Option, none, some, List, [], ◌∷◌, if◌then◌else◌,
}
use k2a_token_sync.Base.Dict.{Dict, lookup, label_is}
use k2a_token_sync.Errors.{Error, Result, ok, err, wrap, is_not_found}

pub data Kind : Type 0 where
  cluster_connection secret cluster_role_binding service_account cluster_role : Kind

-- An object's address; the namespace of a cluster-scoped object is empty.
pub record Address : Type 0 where
  pub kind : Kind
  pub namespace : String
  pub name : String

-- What a read answers with, as far as the removal looks at it.
pub record Found : Type 0 where
  pub labels : Dict String
  pub annotations : Dict String
  pub managers : List String

pub data Call : Type 0 where
  get delete : Address → Call

-- The calls made so far, the latest first.
abbrev pub History : Type 0
History = List Call

pub record Server : Type 0 where
  pub get_answer : History → Address → Result Found
  pub delete_answer : History → Address → Option Error

-- RemovalOutcome
pub data RemovalOutcome : Type 0 where
  removed absent not_owned : RemovalOutcome

-- What one removal reports, and the calls with its own.
pub record Removal : Type 0 where
  pub outcome : RemovalOutcome
  pub error : Option Error
  pub history : History

abbrev pub managed_label : String
managed_label = "app.kubernetes.io/managed-by"

abbrev pub managed_value : String
managed_value = "k2a-token-sync"

-- isManaged, and the same test on a Secret
unfoldable pub is_managed : Found → Bool
unfolding lookup
is_managed found = label_is found.labels managed_label managed_value

-- How the errors name the object.
unfoldable pub describe : Address → String
unfolding concat
describe o =
    let placed = concat (o.namespace ∷ "/" ∷ o.name ∷ []) in
    elim o.kind [
      | cluster_connection ↦ "clusterconnection " <> placed
      | secret ↦ "secret " <> placed
      | cluster_role_binding ↦ "clusterrolebinding " <> o.name
      | service_account ↦ "serviceaccount " <> placed
      | cluster_role ↦ "clusterrole " <> o.name
    ]

abbrev pub deleted : Address → History → Option Error → Removal
deleted object h none = record { outcome = removed; error = none; history = h }
deleted object h (some e) =
    if is_not_found e then record { outcome = absent; error = none; history = h } else record {
      outcome = absent;
      error = some (wrap ("deleting " <> describe object <> ": ") e "");
      history = h;
    }

-- After the read: `owned` is the check of the label, where there is one.
abbrev pub after_read : Server → (Found → Bool) → Bool → Address → History → Result Found → Removal
after_read server owned dry_run object h (err e) =
    if is_not_found e then record { outcome = absent; error = none; history = h } else record {
      outcome = absent;
      error = some (wrap ("getting " <> describe object <> ": ") e "");
      history = h;
    }
after_read server owned dry_run object h (ok found) =
    let done = deleted object (delete object ∷ h) (server.delete_answer h object) in
    if not (owned found)
    then record { outcome = not_owned; error = none; history = h }
    else if dry_run
    then record { outcome = removed; error = none; history = h }
    else done

-- RemoveClusterRoleBinding, RemoveServiceAccount, RemoveClusterRole and removeOwnedSecret, which are
-- one text but for the kind.
unfoldable pub remove_managed : Server → Bool → Address → History → Removal
unfolding is_managed describe
remove_managed server dry_run object h =
    after_read server is_managed dry_run object (get object ∷ h) (server.get_answer h object)

-- removeClusterConnection
unfoldable pub remove_cluster_connection : Server → Bool → Address → History → Removal
unfolding describe
remove_cluster_connection server dry_run object h =
    after_read server (λ _. true) dry_run object (get object ∷ h) (server.get_answer h object)
