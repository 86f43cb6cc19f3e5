-- ===== src/Argocd/Publish.antt =====
-- The two server-side applies of a cluster Secret: what each sends, what the registration's answer
-- says about the credential there, and who else manages the Secret.
pub mod Laws
use k2a_token_sync.Base.{
  String, ◌<>◌, concat, join, Bool, true, false, not, ◌||◌, Option, none, some, List, [], ◌∷◌, ◌++◌,
  if◌then◌else◌, ◌==◌, is_empty, contains, sort_strings,
}
use k2a_token_sync.Base.Dict.{Dict, lookup, insert}
use k2a_token_sync.Time.{Time, is_zero}
use k2a_token_sync.Errors.{Error, Result, ok, err, wrap}
use k2a_token_sync.Action.{Action, pure, from_result, on_error, ◌>>=◌, ◌>>◌}
use k2a_token_sync.Format.{Printer}
use k2a_token_sync.Kube.{Client, Kube, History, send, apply_secret}
use k2a_token_sync.Kube.Objects.{Secret}
use k2a_token_sync.Argocd.{ClusterSecret, Digest}

abbrev pub field_manager_registration : String
field_manager_registration = "k2a-token-sync"

abbrev pub field_manager_credential : String
field_manager_credential = "k2a-token-sync-credential"

abbrev pub secret_type_label : String
secret_type_label = "argocd.argoproj.io/secret-type"

abbrev pub secret_type_cluster : String
secret_type_cluster = "cluster"

abbrev pub managed_by_label : String
managed_by_label = "app.kubernetes.io/managed-by"

abbrev pub managed_by_value : String
managed_by_value = "k2a-token-sync"

abbrev pub token_expiry_annotation : String
token_expiry_annotation = "k2a-token-sync.io/token-expires-at"

abbrev pub serving_cert_expiry_annotation : String
serving_cert_expiry_annotation = "k2a-token-sync.io/serving-cert-expires-at"

abbrev pub cluster_name_annotation : String
cluster_name_annotation = "k2a-token-sync.io/cluster"

abbrev pub config_key : String
config_key = "config"

-- clusterConfig, with its tlsClientConfig
pub record ClusterConfig : Type 0 where
  pub bearer_token : String
  pub insecure : Bool
  pub ca_data : String
  pub server_name : String

-- encoding/json on a clusterConfig
pub record Codec : Type 0 where
  pub encode : ClusterConfig → Result String
  pub decode : String → Result ClusterConfig

-- The extra annotations without the two that are written only where the expiry is known.
unfoldable pub custom_annotations : Dict String → Dict String
custom_annotations [] = []
custom_annotations ((k, v) ∷ rest) =
    let others = custom_annotations rest in
    if k == token_expiry_annotation || k == serving_cert_expiry_annotation
    then others
    else (k, v) ∷ others

abbrev pub stamped : Printer → String → Time → Dict String → Dict String
stamped p key t annotations =
    if is_zero t then annotations else insert key (p.rfc3339 t) annotations

abbrev bool_text : Bool → String
bool_text true = "true"
bool_text false = "false"

abbrev scope_of : Option Bool → Dict String
scope_of none = []
scope_of (some b) = ("clusterResources", bool_text b) ∷ []

-- registrationConfig
unfoldable pub registration_config : Printer → ClusterSecret → Secret
unfolding custom_annotations insert join
registration_config p c =
    let always =
      insert cluster_name_annotation c.cluster_name (custom_annotations c.extra_annotations) in
    let dated = stamped p token_expiry_annotation c.token_expires_at always in
    record {
      name = c.name;
      namespace = c.namespace;
      kind = "Opaque";
      labels =
          insert managed_by_label managed_by_value
            (insert secret_type_label secret_type_cluster c.extra_labels);
      annotations = stamped p serving_cert_expiry_annotation c.serving_cert_expires_at dated;
      contents =
          ("name", c.display_name)
            ∷ ("server", c.server)
            ∷ (if c.project == "" then [] else ("project", c.project) ∷ [])
          ++ (if is_empty c.namespaces then [] else ("namespaces", join "," c.namespaces) ∷ [])
          ++ scope_of c.cluster_resources;
      managers = [];
    }

-- The payload that credentialConfig encodes.
unfoldable pub cluster_config : ClusterSecret → ClusterConfig
cluster_config c = record {
  bearer_token = c.bearer_token;
  insecure = false;
  ca_data = c.ca_data;
  server_name = "";
}

-- The configuration of credentialConfig, around its payload.
unfoldable pub credential_secret : ClusterSecret → String → Secret
credential_secret c payload = record {
  name = c.name;
  namespace = c.namespace;
  kind = "Opaque";
  labels = [];
  annotations = [];
  contents = (config_key, payload) ∷ [];
  managers = [];
}

-- credentialConfig: the payload
unfoldable pub credential_config : Codec → ClusterSecret → Result String
unfolding cluster_config
credential_config codec c = elim (codec.encode (cluster_config c)) [
  | err e ↦ err (wrap "encoding cluster config: " e "")
  | ok payload ↦ ok payload
]

-- The loop of ForeignManagers.
unfoldable pub collect_foreign : List String → List String → List String
unfolding contains
collect_foreign foreign [] = foreign
collect_foreign foreign (m ∷ ms) =
    collect_foreign
      (if m == "k2a-token-sync" || m == "k2a-token-sync-credential" || m == "" || contains foreign m
        then foreign
        else foreign ++ (m ∷ []))
      ms

-- ForeignManagers
unfoldable pub foreign_managers : List String → List String
unfolding collect_foreign sort_strings
foreign_managers managers = sort_strings (collect_foreign [] managers)

-- The digest of a config that is there: none where it does not decode or carries no token.
abbrev hash_decoded : Digest → String → Result ClusterConfig → String
hash_decoded digest raw (err _) = ""
hash_decoded digest raw (ok config) = if config.bearer_token == "" then "" else digest raw

abbrev hash_raw : Digest → Codec → Option String → String
hash_raw digest codec none = ""
hash_raw digest codec (some raw) = hash_decoded digest raw (codec.decode raw)

-- hashCredential
unfoldable pub hash_credential : Digest → Codec → Secret → String
unfolding lookup
hash_credential digest codec secret = hash_raw digest codec (lookup config_key secret.contents)

-- Registration
pub record Registration : Type 0 where
  pub credential_hash : String
  pub foreign_managers : List String

module _ (p : Printer) (digest : Digest) (codec : Codec) (kube : Kube) (client : Client) where
  abbrev at : ClusterSecret → String
  at c = concat (c.namespace ∷ "/" ∷ c.name ∷ ": " ∷ [])

  -- ApplyRegistration
  unfoldable pub apply_registration : ClusterSecret → Action History Registration
  unfolding registration_config hash_credential foreign_managers concat
  apply_registration desired = do
    applied ←
        on_error (λ e. wrap ("applying cluster secret " <> at desired) e "")
          (send kube client
            (apply_secret field_manager_registration (registration_config p desired)))
    pure (record {
      credential_hash = hash_credential digest codec applied;
      foreign_managers = foreign_managers applied.managers;
    })

  -- ApplyCredential: the digest of what was sent
  unfoldable pub apply_credential : ClusterSecret → Action History String
  unfolding credential_config credential_secret concat
  apply_credential desired = do
    payload ← from_result (credential_config codec desired)
    _ ←
        on_error (λ e. wrap ("applying credential for " <> at desired) e "")
          (send kube client
            (apply_secret field_manager_credential (credential_secret desired payload)))
    pure (digest payload)
