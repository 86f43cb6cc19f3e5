-- ===== src/Config/Spec.antt =====
-- FromSpec, with normaliseEndpoint, parseDuration and orDefault, and BootstrapCluster: how a
-- ClusterConnection's spec, or the flags of a bootstrap, resolve to a cluster.
pub mod Laws
use Prim.Native.String.{len}
use k2a_token_sync.Base.{
  String, ◌<>◌, concat, Bool, true, false, not, ◌&&◌, ◌||◌, Option, none, some, List, [], ◌∷◌,
  if◌then◌else◌, ◌==◌, ltb, is_empty, is_some,
}
use k2a_token_sync.Base.Int.{pos, leb_ℤ, ltb_ℤ}
use k2a_token_sync.Time.{Duration, hour}
use k2a_token_sync.Errors.{Error, Result, ok, err, new_error, wrap, and_then}
use k2a_token_sync.Api.{ServiceAccountRef, ClusterConnectionSpec}
use k2a_token_sync.Config.{Cluster}
use k2a_token_sync.Format.{Printer, Parser}

-- 720 h, 2160 h, 2160 h and 1 h
abbrev pub default_token_ttl : Duration
default_token_ttl = pos 2592000000000000

abbrev pub default_self_token_ttl : Duration
default_self_token_ttl = pos 7776000000000000

abbrev pub default_expiry_warn_threshold : Duration
default_expiry_warn_threshold = pos 7776000000000000

abbrev pub min_token_ttl : Duration
min_token_ttl = pos 3600000000000

abbrev pub default_cluster_role : String
default_cluster_role = "cluster-admin"

abbrev pub default_api_port : String
default_api_port = "6443"

-- orDefault, on two values
abbrev pub or_default : String → String → String
or_default s t = if s == "" then t else s

abbrev pub account_of : Option ServiceAccountRef → ServiceAccountRef
account_of none = record { name = "argocd-manager"; namespace = "kube-system" }
account_of (some a) = record {
  name = or_default a.name "argocd-manager";
  namespace = or_default a.namespace "kube-system";
}

-- The cluster of a spec, once the endpoint and the durations are resolved. Whether the cluster's
-- registration was adopted is not part of a spec.
unfoldable pub resolved :
    String → ClusterConnectionSpec → String → Duration → Duration → Duration → Cluster
resolved name spec endpoint token_ttl self_token_ttl threshold = record {
  name = name;
  endpoint = endpoint;
  display_name = or_default spec.display_name name;
  service_account = account_of spec.service_account;
  self_service_account_name = or_default spec.self_service_account_name "k2a-token-sync";
  secret_name = or_default spec.secret_name ("cluster-" <> name);
  token_ttl = token_ttl;
  self_token_ttl = self_token_ttl;
  expiry_warn_threshold = threshold;
  labels = spec.labels;
  annotations = spec.annotations;
  project = spec.project;
  cluster_role = or_default spec.cluster_role default_cluster_role;
  namespaces = spec.namespaces;
  cluster_resources = spec.cluster_resources;
  adopted_registration = false;
}

module _ (p : Printer) (r : Parser) where
  -- What normaliseEndpoint makes of the host and the port.
  abbrev with_port : String → String × String → Result String
  with_port input parts =
      if parts.0 == ""
      then err (new_error (concat ("endpoint " ∷ p.quote input ∷ " has no host" ∷ [])))
      else if parts.1 == ""
      then ok (r.join_host_port parts.0 default_api_port)
      else if not (r.is_numeric parts.1)
      then err (new_error (concat ("endpoint " ∷ p.quote input ∷ " has a non-numeric port" ∷ [])))
      else ok (r.join_host_port parts.0 parts.1)

  abbrev with_split : String → String → Result (String × String) → Result String
  with_split input endpoint (ok parts) = with_port input parts
  with_split input endpoint (err e) =
      if not (r.contains_text endpoint ":")
      then ok (r.join_host_port endpoint default_api_port)
      else err
          (wrap (concat ("endpoint " ∷ p.quote input ∷ " is not a valid host:port: " ∷ [])) e "")

  -- normaliseEndpoint
  unfoldable pub normalise_endpoint : String → Result String
  unfolding concat
  normalise_endpoint input =
      let trimmed = r.trim_space input in
      let endpoint = r.trim_suffix (r.trim_prefix trimmed "https://") "/" in
      if trimmed == ""
      then err (new_error "endpoint must not be empty")
      else if r.contains_text endpoint "/"
      then err (
          new_error (
            concat
              ("endpoint " ∷ p.quote input ∷ " must be a host or host:port, not a URL path" ∷ [])))
      else with_split input endpoint (r.split_host_port endpoint)

  abbrev bounded : String → String → Duration → Duration → Result Duration
  bounded field raw lower_bound d =
      let named = concat (field ∷ " " ∷ p.quote raw ∷ []) in
      if leb_ℤ d (pos 0)
      then err (new_error (named <> " must be positive"))
      else if ltb_ℤ (pos 0) lower_bound && ltb_ℤ d lower_bound
      then err (new_error (concat (named ∷ " must be at least " ∷ p.duration lower_bound ∷ [])))
      else ok d

  abbrev invalid : String → String → Result Duration → Result Duration
  invalid field raw (ok d) = ok d
  invalid field raw (err e) =
      err (wrap (concat (field ∷ " " ∷ p.quote raw ∷ " is not a valid duration: " ∷ [])) e "")

  -- parseDuration
  unfoldable pub parse_duration : String → String → Duration → Duration → Result Duration
  unfolding concat
  parse_duration field raw default lower_bound =
      if r.trim_space raw == ""
      then ok default
      else and_then (invalid field raw (r.parse_duration raw)) (bounded field raw lower_bound)

  -- FromSpec
  unfoldable pub from_spec : String → ClusterConnectionSpec → Result Cluster
  unfolding normalise_endpoint parse_duration resolved concat
  from_spec name spec =
      if name == ""
      then err (new_error "name must not be empty")
      else if ltb 63 (len name)
      then err (
          new_error (
            concat (
              "name "
              ∷ p.quote name
              ∷ " exceeds 63 characters, so the Secret names derived from it would be invalid"
              ∷ [])))
      else and_then (normalise_endpoint spec.endpoint) (λ endpoint.
        if is_some spec.cluster_resources && is_empty spec.namespaces
        then err (
            new_error
              "clusterResources has no meaning without namespaces: a registration that is not restricted to namespaces already covers cluster-scoped resources")
        else and_then (parse_duration "tokenTTL" spec.token_ttl default_token_ttl min_token_ttl)
            (λ token_ttl.
              and_then
                (parse_duration "selfTokenTTL" spec.self_token_ttl default_self_token_ttl
                  min_token_ttl)
                (λ self_token_ttl.
                  and_then
                    (parse_duration "expiryWarnThreshold" spec.expiry_warn_threshold
                      default_expiry_warn_threshold (pos 0))
                    (λ threshold.
                      ok (resolved name spec endpoint token_ttl self_token_ttl threshold)))))

-- BootstrapClusterInput
pub record BootstrapClusterInput : Type 0 where
  pub name : String
  pub endpoint : String
  pub service_account_name : String
  pub service_account_namespace : String
  pub self_service_account_name : String
  pub cluster_role : String
  pub namespaces : List String
  pub cluster_resources : Option Bool

-- The spec that BootstrapCluster builds from the flags.
unfoldable pub bootstrap_spec : BootstrapClusterInput → ClusterConnectionSpec
bootstrap_spec input = record {
  endpoint = input.endpoint;
  display_name = "";
  secret_name = "";
  project = "";
  cluster_role = input.cluster_role;
  namespaces = input.namespaces;
  cluster_resources = input.cluster_resources;
  service_account =
      if not (input.service_account_name == "") || not (input.service_account_namespace == "")
      then some (record {
        name = input.service_account_name;
        namespace = input.service_account_namespace;
      })
      else none;
  self_service_account_name = input.self_service_account_name;
  token_ttl = "";
  self_token_ttl = "";
  expiry_warn_threshold = "";
  labels = [];
  annotations = [];
}

-- BootstrapCluster
unfoldable pub bootstrap_cluster : Printer → Parser → BootstrapClusterInput → Result Cluster
unfolding from_spec bootstrap_spec
bootstrap_cluster p r input =
    if input.name == ""
    then err (new_error "cluster name must not be empty")
    else if ltb 63 (len input.name)
    then err
        (new_error (concat ("cluster name " ∷ p.quote input.name ∷ " exceeds 63 characters" ∷ [])))
    else from_spec p r input.name (bootstrap_spec input)
