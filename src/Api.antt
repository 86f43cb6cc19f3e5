-- ===== src/Api.antt =====
-- api/v1alpha1: the ClusterConnection's spec and status, and the words its conditions use.
pub mod Conditions
pub mod Reason
pub mod Equality
use k2a_token_sync.Base.{String, Bool, Option, none, List, []}
use k2a_token_sync.Base.Int.{ℤ, pos}
use k2a_token_sync.Base.Dict.{Dict}
use k2a_token_sync.Time.{Time}
use Conditions.{Condition}

pub record ServiceAccountRef : Type 0 where
  pub name : String
  pub namespace : String

pub record ClusterConnectionSpec : Type 0 where
  pub endpoint : String
  pub display_name : String
  pub secret_name : String
  pub project : String
  pub cluster_role : String
  pub namespaces : List String
  pub cluster_resources : Option Bool
  pub service_account : Option ServiceAccountRef
  pub self_service_account_name : String
  pub token_ttl : String
  pub self_token_ttl : String
  pub expiry_warn_threshold : String
  pub labels : Dict String
  pub annotations : Dict String

pub record ClusterConnectionStatus : Type 0 where
  pub observed_generation : ℤ
  pub conditions : List Condition
  pub secret : String
  pub token_expires_at : Option Time
  pub token_issued_at : Option Time
  pub self_credential_expires_at : Option Time
  pub self_credential_issued_at : Option Time
  pub serving_cert_expires_at : Option Time
  pub serving_cert_days_remaining : ℤ
  pub last_sync_time : Option Time
  pub last_action : String
  pub applied_server : String
  pub applied_display_name : String
  pub applied_project : String
  pub applied_ca_hash : String
  pub applied_credential_hash : String

-- The zero value, ClusterConnectionStatus{}.
abbrev pub empty_status : ClusterConnectionStatus
empty_status = record {
  observed_generation = pos 0;
  conditions = [];
  secret = "";
  token_expires_at = none;
  token_issued_at = none;
  self_credential_expires_at = none;
  self_credential_issued_at = none;
  serving_cert_expires_at = none;
  serving_cert_days_remaining = pos 0;
  last_sync_time = none;
  last_action = "";
  applied_server = "";
  applied_display_name = "";
  applied_project = "";
  applied_ca_hash = "";
  applied_credential_hash = "";
}

-- metadata.annotations key that records an adoption
abbrev pub annotation_adopted : String
annotation_adopted = "k2a-token-sync.io/adopted"
