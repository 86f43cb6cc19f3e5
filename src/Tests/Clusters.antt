-- ===== src/Tests/Clusters.antt =====
-- The theorems about identities, credentials, specs and registrations at concrete inputs.
use mathlib.Core.List.{Perm}
use text.Mathlib.TextEquality.{eq_iff}
use k2a_token_sync.Reconcile.{Reconciler}
use k2a_token_sync.Base.{String, ◌≢◌, ◌⊎◌, false, ◌≡◌, refl, none, [], ◌∷◌, string_dec, arith}
use k2a_token_sync.Errors.{Result, ok, err}
use k2a_token_sync.Action.{◌>>=◌, attempt, pure, from_result}
use k2a_token_sync.Config.{Cluster}
use k2a_token_sync.Config.Spec.{from_spec, bootstrap_spec, BootstrapClusterInput}
use k2a_token_sync.Config.Spec.Laws.{IsResolved, from_spec-IsResolved}
use k2a_token_sync.Kube.{send, History, selected}
use k2a_token_sync.Kube.Secrets.{Credentials, credentials_in, credentials_secret, updated}
use k2a_token_sync.Kube.Secrets.Laws.{credentials_in-updated}
use k2a_token_sync.Downstream.{Repairs, identity_objects}
use k2a_token_sync.Downstream.Ensure.{ensure_argocd_identity}
use k2a_token_sync.Downstream.Ensure.Laws.{IsBlankCluster}
use k2a_token_sync.Downstream.Ensure.Sound.{Found, Made, ensure_argocd_identity_sound}
use k2a_token_sync.Reconcile.Access.{provision}
use k2a_token_sync.Reconcile.Access.Laws.{created, provision-identity_objects}
use k2a_token_sync.Removal.Guards.{removal_cluster}
use k2a_token_sync.Removal.Fallback.{SameNames, fallback_of, from_spec-removal_cluster}
use k2a_token_sync.Tests.Data.{plain, hour_later}
use k2a_token_sync.Tests.World.{
  texts, granting, growing_server, absent_error, server_of, reconciler_of, managed, secret_with,
}

abbrev ensured : Result Repairs × History
ensured =
    ensure_argocd_identity plain (server_of granting) selected "kube-system" "argocd-manager"
      "cluster-admin" []

ensure_argocd_identity_sound_example :
    (◌≢◌ {A = String} "cluster-admin" "")
    × ((before : History) × (Found plain
            (server_of granting)
            selected
            "argocd-manager-role-binding"
            "cluster-admin"
            "kube-system"
            "argocd-manager"
            before
            false
            ensured.1
          ⊎ Made plain
              (server_of granting)
              selected
              "argocd-manager-role-binding"
              "cluster-admin"
              "kube-system"
              "argocd-manager"
              before
              false
              ensured.1))
unfolding ensure_argocd_identity string_dec ◌>>=◌ attempt send pure from_result
ensure_argocd_identity_sound_example =
    ensure_argocd_identity_sound plain (server_of granting) selected "kube-system" "argocd-manager"
      "cluster-admin" [] (record { service_account = false; binding = false }) ensured.1 refl

growing-IsBlankCluster : IsBlankCluster plain growing_server selected
growing-IsBlankCluster = (
  λ h namespace name free. rw free (absent_error, refl, refl),
  λ h name free. rw free (absent_error, refl, refl),
  λ h a free. rw free refl,
  λ h r free. rw free refl,
  λ h b free. rw free refl,
)

abbrev growing_reconciler : Reconciler
growing_reconciler = record (reconciler_of granting) { kube = growing_server }

provision-identity_objects_example :
    Perm
      (created (provision growing_reconciler managed selected []).1)
      (identity_objects "kube-system" "argocd-manager" "k2a-token-sync" "cluster-admin")
provision-identity_objects_example =
    provision-identity_objects growing_reconciler managed selected growing-IsBlankCluster
      (ground (arith, eq_iff "cluster-admin" ""))
      (ground (arith, eq_iff "k2a-token-sync" "argocd-manager"))
      (ground (arith, eq_iff "k2a-token-sync" "argocd-manager-role-binding"))

abbrev stored : Credentials
stored = record { token = "own-token"; ca = "CA"; expires_at = hour_later }

credentials_in-updated_example :
    credentials_in plain texts "k2a" "east-credentials" (
      updated
        (secret_with (("token", "old-token") ∷ ("note", "kept") ∷ []))
        (credentials_secret plain "k2a" "east-credentials" stored []))
    ≡ ok stored
credentials_in-updated_example =
    credentials_in-updated plain texts
      (secret_with (("token", "old-token") ∷ ("note", "kept") ∷ [])) "k2a" "east-credentials" stored
      [] refl (ground (arith, eq_iff "own-token" "")) refl (ground (arith, eq_iff "CA" "")) refl
      refl (ground (arith, eq_iff "2026-01-01T00:00:00Z" "")) refl

abbrev flags : BootstrapClusterInput
flags = record {
  name = "east";
  endpoint = "east";
  service_account_name = "";
  service_account_namespace = "argo";
  self_service_account_name = "";
  cluster_role = "";
  namespaces = [];
  cluster_resources = none;
}

abbrev cluster_in : Result Cluster → Cluster
cluster_in (ok c) = c
cluster_in (err _) = managed

abbrev resolved_east : Cluster
resolved_east = cluster_in (from_spec plain texts "east" (bootstrap_spec flags))

from_spec-IsResolved_example : IsResolved resolved_east
unfolding from_spec string_dec bootstrap_spec
from_spec-IsResolved_example =
    from_spec-IsResolved plain texts "east" (bootstrap_spec flags) resolved_east refl

from_spec-removal_cluster_example :
    (d : Cluster) × (removal_cluster plain (fallback_of "east" (bootstrap_spec flags)) ≡ ok d)
    × SameNames resolved_east d
unfolding from_spec string_dec bootstrap_spec
from_spec-removal_cluster_example =
    from_spec-removal_cluster plain texts "east" (bootstrap_spec flags) resolved_east refl
