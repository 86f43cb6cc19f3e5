-- ===== src/Tests/Narrowing.antt =====
-- The theorems about applying a restriction, on a cluster that was restricted before.
use k2a_token_sync.Base.{
  true, String, refl, Bool, false, List, [], ◌∷◌, any, string_dec, ◌==◌, if◌then◌else◌,
}
use k2a_token_sync.Errors.{Result, ok, err, new_error}
use k2a_token_sync.Action.{Stays, Returns, ◌>>=◌, attempt, on_error, from_result}
use k2a_token_sync.Kube.{
  Kube, History, Request, Reply, get_role, get_role_binding, get_service_account, send,
}
use k2a_token_sync.Kube.Objects.{PolicyRule, Role, RoleBinding}
use k2a_token_sync.Kube.Trace.{Licensed}
use k2a_token_sync.Hardening.{managed_by_label, app_name_label}
use k2a_token_sync.Hardening.Rules.{
  baseline_rules, restricted_role, restricted_role_binding, grants,
}
use k2a_token_sync.Hardening.Apply.{apply}
use k2a_token_sync.Hardening.Apply.Installed.{Installed, apply-Installed}
use k2a_token_sync.Hardening.Apply.Order.{Ordered}
use k2a_token_sync.Hardening.Apply.Safety.{apply-Ordered}
use k2a_token_sync.Hardening.Authorization.{Reviewer}
use k2a_token_sync.Restriction.{RestrictRbacParams, execute_restriction}
use k2a_token_sync.Restriction.Safety.{ReadOnly, execute_restriction-ReadOnly}
use k2a_token_sync.Tests.Data.{helm_names, plain, tallied, east, west}
use k2a_token_sync.Tests.World.{server_of, granting}

abbrev listed : List String
listed = "cluster-east" ∷ "cluster-west" ∷ []

abbrev helm_labels : List (String × String)
helm_labels = (managed_by_label, "Helm") ∷ (app_name_label, "k2a-token-sync") ∷ []

abbrev narrowed_baseline : Role
narrowed_baseline = record {
  name = "k2a-token-sync";
  namespace = "argocd";
  labels = helm_labels;
  annotations = [];
  rules = baseline_rules false;
}

abbrev baseline_binding : RoleBinding
baseline_binding = record (restricted_role_binding helm_names) {
  name = "k2a-token-sync";
  labels = helm_labels;
  role_ref = record {
    api_group = "rbac.authorization.k8s.io";
    kind = "Role";
    name = "k2a-token-sync";
  };
}

abbrev restricted_before : (r : Request) → Result (Reply r)
restricted_before (get_service_account namespace name) =
    ok (record { namespace = namespace; name = name; labels = helm_labels })
restricted_before (get_role _ name) =
    ok (if name == "k2a-token-sync" then narrowed_baseline else restricted_role helm_names listed)
restricted_before (get_role_binding _ name) =
    ok (if name == "k2a-token-sync" then baseline_binding else restricted_role_binding helm_names)
restricted_before r = granting r

abbrev cluster : Kube
cluster = server_of restricted_before

abbrev restricted_again : Result (Unit {0}) × History
restricted_again = apply cluster helm_names listed []

apply-Ordered_example : Licensed (Ordered cluster helm_names listed) restricted_again.1
apply-Ordered_example = apply-Ordered cluster helm_names listed

abbrev allows : List PolicyRule → String → String → Bool
allows rules verb name = any (grants verb name) rules

restricted_again-Returns : Returns (apply cluster helm_names listed) [] tt restricted_again.1
unfolding apply string_dec ◌>>=◌ on_error send from_result attempt
restricted_again-Returns = refl

apply-Installed_example :
    Installed cluster helm_names allows (λ rules verb name. refl) listed restricted_again.1
apply-Installed_example =
    apply-Installed cluster helm_names allows (λ rules verb name. refl) listed [] restricted_again.1
      restricted_again-Returns

abbrev previewing : RestrictRbacParams
previewing = record { names = helm_names; confirm = false; dry_run = true; print_only = false }

abbrev no_review : Reviewer
no_review n check = err (new_error "no review")

execute_restriction-ReadOnly_example : Stays (Licensed ReadOnly) (
    execute_restriction plain
      (λ name. [])
      tallied
      cluster
      no_review
      previewing
      (ok (east ∷ west ∷ []))
      (λ plan. ok tt)
      (ok false))
execute_restriction-ReadOnly_example =
    execute_restriction-ReadOnly plain (λ name. []) tallied cluster no_review previewing
      (ok (east ∷ west ∷ [])) (λ plan. ok tt) (ok false) refl
