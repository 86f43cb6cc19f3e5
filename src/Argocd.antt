-- ===== src/Argocd.antt =====
-- internal/argocd: the desired registration, the fingerprint of what was published, and the
-- decision to mint a new credential.
pub mod Refresh
pub mod Publish
use k2a_token_sync.Base.{String, Bool, Option, List, if◌then◌else◌, ◌==◌}
use k2a_token_sync.Base.Dict.{Dict}
use k2a_token_sync.Time.{Time}

-- Byte slices are texts.
pub record ClusterSecret : Type 0 where
  pub name : String
  pub namespace : String
  pub display_name : String
  pub server : String
  pub bearer_token : String
  pub ca_data : String
  pub project : String
  pub namespaces : List String
  pub cluster_resources : Option Bool
  pub token_expires_at : Time
  pub serving_cert_expires_at : Time
  pub token_issued_at : Time
  pub cluster_name : String
  pub extra_labels : Dict String
  pub extra_annotations : Dict String

pub record Fingerprint : Type 0 where
  pub server : String
  pub display_name : String
  pub project : String
  pub ca_hash : String
  pub token_expires_at : Time
  pub token_issued_at : Time
  pub credential_hash : String

-- SHA-256 in hexadecimal, from Go's crypto packages: no theorem depends on how it digests.
abbrev pub Digest : Type 0
Digest = String → String

-- HashCA
unfoldable pub hash_ca : Digest → String → String
hash_ca digest ca = if ca == "" then "" else digest ca

-- ClusterSecret.Fingerprint
unfoldable pub fingerprint : Digest → ClusterSecret → Fingerprint
unfolding hash_ca
fingerprint digest c = record {
  server = c.server;
  display_name = c.display_name;
  project = c.project;
  ca_hash = hash_ca digest c.ca_data;
  token_expires_at = c.token_expires_at;
  token_issued_at = c.token_issued_at;
  credential_hash = "";
}
