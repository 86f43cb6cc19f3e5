-- ===== src/Downstream.antt =====
-- internal/downstream/downstream.go: the identities that the tool and Argo CD use in a downstream
-- cluster, and the objects they are made of.
pub mod Ensure
pub mod Token
pub mod Probe
pub mod Trace
use k2a_token_sync.Base.{String, ◌<>◌, Bool, ◌||◌, List, [], ◌∷◌}
use k2a_token_sync.Base.Dict.{Dict}
use k2a_token_sync.Kube.Objects.{
  PolicyRule, RoleRef, Subject, ServiceAccount, ClusterRole, ClusterRoleBinding,
}

abbrev pub root_ca_config_map : String
root_ca_config_map = "kube-root-ca.crt"

abbrev pub root_ca_key : String
root_ca_key = "ca.crt"

abbrev pub rbac_group : String
rbac_group = "rbac.authorization.k8s.io"

-- ManagedByLabel
abbrev pub managed_by_label : Dict String
managed_by_label = ("app.kubernetes.io/managed-by", "k2a-token-sync") ∷ []

-- serviceAccount
unfoldable pub service_account : String → String → ServiceAccount
service_account namespace name = record {
  namespace = namespace;
  name = name;
  labels = managed_by_label;
}

abbrev pub subject_of : String → String → Subject
subject_of sa_namespace sa_name = record {
  api_group = "";
  kind = "ServiceAccount";
  name = sa_name;
  namespace = sa_namespace;
}

-- clusterRoleBinding
unfoldable pub cluster_role_binding : String → String → String → String → ClusterRoleBinding
cluster_role_binding binding_name cluster_role sa_namespace sa_name = record {
  name = binding_name;
  labels = managed_by_label;
  role_ref = record { api_group = rbac_group; kind = "ClusterRole"; name = cluster_role };
  subjects = subject_of sa_namespace sa_name ∷ [];
}

abbrev rule : String → String → List String → List String → PolicyRule
rule group resource names verbs = record {
  api_groups = group ∷ [];
  resources = resource ∷ [];
  resource_names = names;
  verbs = verbs;
  non_resource_urls = [];
}

-- selfRules
unfoldable pub self_rules : String → List PolicyRule
self_rules cluster_role =
    rule "" "serviceaccounts" [] ("get" ∷ "create" ∷ [])
    ∷ rule "" "serviceaccounts/token" [] ("create" ∷ [])
    ∷ rule rbac_group "clusterrolebindings" [] ("get" ∷ "create" ∷ [])
    ∷ rule rbac_group "clusterroles" (cluster_role ∷ []) ("bind" ∷ [])
    ∷ rule "" "configmaps" (root_ca_config_map ∷ []) ("get" ∷ [])
    ∷ []

-- selfClusterRole
unfoldable pub self_cluster_role : String → String → ClusterRole
unfolding self_rules
self_cluster_role name cluster_role = record {
  name = name;
  labels = managed_by_label;
  rules = self_rules cluster_role;
}

-- The objects that IdentityObjects lists.
pub data Identity : Type 0 where
  account : ServiceAccount → Identity
  role : ClusterRole → Identity
  binding : ClusterRoleBinding → Identity

-- IdentityObjects
unfoldable pub identity_objects : String → String → String → String → List Identity
unfolding service_account cluster_role_binding self_cluster_role
identity_objects namespace argocd_name self_name cluster_role =
    account (service_account namespace argocd_name)
    ∷ binding
        (cluster_role_binding (argocd_name <> "-role-binding") cluster_role namespace argocd_name)
    ∷ account (service_account namespace self_name)
    ∷ role (self_cluster_role self_name cluster_role)
    ∷ binding (cluster_role_binding self_name self_name namespace self_name)
    ∷ []

pub record Repairs : Type 0 where
  pub service_account : Bool
  pub binding : Bool

-- Repairs.Any
unfoldable pub any_repair : Repairs → Bool
any_repair r = r.service_account || r.binding
