-- ===== src/Kube/Objects.antt =====
-- The Kubernetes objects that the program reads and writes, with the fields that it looks at. The
-- types are those of k8s.io/api; byte slices are texts.
use k2a_token_sync.Base.{String, List}
use k2a_token_sync.Base.Dict.{Dict}
use k2a_token_sync.Time.{Time}

-- rbacv1.PolicyRule, the fields that the program sets
pub record PolicyRule : Type 0 where
  pub api_groups : List String
  pub resources : List String
  pub resource_names : List String
  pub verbs : List String
  pub non_resource_urls : List String

pub record Role : Type 0 where
  pub name : String
  pub namespace : String
  pub labels : Dict String
  pub annotations : Dict String
  pub rules : List PolicyRule

pub record RoleRef : Type 0 where
  pub api_group : String
  pub kind : String
  pub name : String

pub record Subject : Type 0 where
  pub api_group : String
  pub kind : String
  pub name : String
  pub namespace : String

pub record RoleBinding : Type 0 where
  pub name : String
  pub namespace : String
  pub labels : Dict String
  pub annotations : Dict String
  pub role_ref : RoleRef
  pub subjects : List Subject

pub record ClusterRole : Type 0 where
  pub name : String
  pub labels : Dict String
  pub rules : List PolicyRule

pub record ClusterRoleBinding : Type 0 where
  pub name : String
  pub labels : Dict String
  pub role_ref : RoleRef
  pub subjects : List Subject

pub record ServiceAccount : Type 0 where
  pub namespace : String
  pub name : String
  pub labels : Dict String

-- corev1.Secret, and the configuration of a server-side apply of one. The managers are those of
-- metadata.managedFields, one for each entry; the contents are the field Data.
pub record Secret : Type 0 where
  pub name : String
  pub namespace : String
  pub kind : String
  pub labels : Dict String
  pub annotations : Dict String
  pub contents : Dict String
  pub managers : List String

-- TokenRequest.status
pub record TokenStatus : Type 0 where
  pub token : String
  pub expiration_timestamp : Time
