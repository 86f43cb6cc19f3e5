-- ===== src/Config.antt =====
-- internal/config: one downstream cluster, as resolved from a ClusterConnection, and the names
-- derived from it.
pub mod Spec
use k2a_token_sync.Base.{String, ◌<>◌, Bool, false, Option, none, List, []}
use k2a_token_sync.Base.Int.{pos}
use k2a_token_sync.Base.Dict.{Dict}
use k2a_token_sync.Time.{Duration}
use k2a_token_sync.Api.{ServiceAccountRef}

pub record Cluster : Type 0 where
  pub name : String
  pub endpoint : String
  pub display_name : String
  pub service_account : ServiceAccountRef
  pub self_service_account_name : String
  pub secret_name : String
  pub token_ttl : Duration
  pub self_token_ttl : Duration
  pub expiry_warn_threshold : Duration
  pub labels : Dict String
  pub annotations : Dict String
  pub project : String
  pub cluster_role : String
  pub namespaces : List String
  pub cluster_resources : Option Bool
  pub adopted_registration : Bool

-- Cluster{}
abbrev pub zero_cluster : Cluster
zero_cluster = record {
  name = "";
  endpoint = "";
  display_name = "";
  service_account = record { name = ""; namespace = "" };
  self_service_account_name = "";
  secret_name = "";
  token_ttl = pos 0;
  self_token_ttl = pos 0;
  expiry_warn_threshold = pos 0;
  labels = [];
  annotations = [];
  project = "";
  cluster_role = "";
  namespaces = [];
  cluster_resources = none;
  adopted_registration = false;
}

unfoldable pub credentials_secret_name : Cluster → String
credentials_secret_name c = c.name <> "-credentials"

unfoldable pub server_url : Cluster → String
server_url c = "https://" <> c.endpoint
