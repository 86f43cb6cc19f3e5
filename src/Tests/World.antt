-- ===== src/Tests/World.antt =====
-- API servers on which the tool's own credential is stored and everything that is asked succeeds, and
-- a Reconciler over them.
use k2a_token_sync.Downstream.Ensure.Laws.{has_account, has_role, has_binding}
use k2a_token_sync.Base.{if◌then◌else◌, Bool, String, ◌<>◌, true, false, none, some, List, [], ◌∷◌}
use k2a_token_sync.Errors.{already_exists, Error, Result, ok, err, new_error, not_found}
use k2a_token_sync.Argocd.Publish.{Codec}
use k2a_token_sync.Config.{Cluster}
use k2a_token_sync.Config.Spec.{min_token_ttl, default_token_ttl}
use k2a_token_sync.Format.{Parser}
use k2a_token_sync.Kube.{
  History, create_service_account, create_cluster_role, create_cluster_role_binding, Request, Reply,
  Kube, Certificate, get_secret, apply_secret, get_cluster_role_binding, get_config_map,
  create_token, review_access, get_role, get_role_binding, get_service_account,
}
use k2a_token_sync.Kube.Objects.{Secret}
use k2a_token_sync.Kube.Trace.{IsRetry, last}
use k2a_token_sync.Downstream.{cluster_role_binding}
use k2a_token_sync.Reconcile.{Reconciler}
use k2a_token_sync.Tests.Conditions.{conditions as listed}
use k2a_token_sync.Tests.Data.{plain, hour_later, east}

abbrev pub texts : Parser
texts = record {
  trim_space = λ s. s;
  parse_rfc3339 = λ _. some hour_later;
  split_host_port = λ s. ok (s, "6443");
  join_host_port = λ host port. host <> ":" <> port;
  trim_prefix = λ s _. s;
  trim_suffix = λ s _. s;
  contains_text = λ _ _. false;
  is_numeric = λ _. true;
  parse_duration = λ _. ok min_token_ttl;
}

-- A credential that carries its token alone.
abbrev pub bare : Codec
bare = record {
  encode = λ c. ok c.bearer_token;
  decode = λ s. ok (record { bearer_token = s; insecure = false; ca_data = ""; server_name = "" });
}

abbrev pub secret_with : List (String × String) → Secret
secret_with contents = record {
  name = "s";
  namespace = "n";
  kind = "Opaque";
  labels = [];
  annotations = [];
  contents = contents;
  managers = [];
}

abbrev pub managed : Cluster
managed = record east.cluster {
  service_account = record { name = "argocd-manager"; namespace = "kube-system" };
  self_service_account_name = "k2a-token-sync";
  token_ttl = default_token_ttl;
  self_token_ttl = default_token_ttl;
  cluster_role = "cluster-admin";
}

-- Every request succeeds; every account and binding is there.
abbrev pub granting : (r : Request) → Result (Reply r)
granting (get_secret _ _) =
    ok (secret_with (("token", "own-token") ∷ ("ca.crt", "CA") ∷ ("expires-at", "later") ∷ []))
granting (apply_secret _ _) = ok (secret_with (("config", "fresh-token") ∷ []))
granting (get_cluster_role_binding name) =
    ok (cluster_role_binding name "cluster-admin" "kube-system" "argocd-manager")
granting (get_config_map _ _) = ok (("ca.crt", "CA") ∷ [])
granting (create_token _ _ _) =
    ok (record { token = "fresh-token"; expiration_timestamp = hour_later })
granting (review_access _ _ _) = ok true
granting (get_service_account namespace name) =
    ok (record { namespace = namespace; name = name; labels = [] })
granting (get_role _ _) = err (new_error "no role")
granting (get_role_binding _ _) = err (new_error "no binding")
granting _ = ok tt

abbrev pub absent_error : Error
absent_error = record {
  text = "not found";
  sentinels = [];
  api_reason = some not_found;
  transport = false;
}

abbrev certificate : Certificate
certificate = record {
  not_after = hour_later;
  subject = "CN=east";
  serial = "1";
  dns_names = "east" ∷ [];
  ip_addresses = [];
  verify_hostname = λ _. none;
}

abbrev pub server_of : ((r : Request) → Result (Reply r)) → Kube
server_of answers = record {
  answer = λ h c r. answers r;
  handshake = λ h e host ca. ok (record { refused = false; chain = certificate ∷ [] });
  verify_chain = λ _ _. none;
  has_certificates = λ _. true;
  client_error = λ _ _ _. none;
  new_conflict = λ _ e. e;
  retry_on_conflict = λ m. m;
}

abbrev pub once : (answers : (r : Request) → Result (Reply r)) → IsRetry (server_of answers)
once answers m h = last h

abbrev pub reconciler_of : ((r : Request) → Result (Reply r)) → Reconciler
reconciler_of answers = record {
  namespace = "k2a";
  argocd_namespace = "argocd";
  kube = server_of answers;
  conditions = listed;
  printer = plain;
  parser = texts;
  digest = λ s. "digest of " <> s;
  codec = bare;
}

abbrev exists_error : Error
exists_error = record absent_error { text = "already exists"; api_reason = some already_exists }

abbrev accept_once : Bool → Result (Unit {0})
accept_once true = err exists_error
accept_once false = ok tt

-- The same servers before any identity was created: they keep what they are sent.
abbrev pub growing : History → (r : Request) → Result (Reply r)
growing h (get_service_account namespace name) =
    if has_account namespace name h
    then granting (get_service_account namespace name)
    else err absent_error
growing h (get_cluster_role_binding name) =
    if has_binding name h then granting (get_cluster_role_binding name) else err absent_error
growing h (create_service_account a) = accept_once (has_account a.namespace a.name h)
growing h (create_cluster_role r) = accept_once (has_role r.name h)
growing h (create_cluster_role_binding b) = accept_once (has_binding b.name h)
growing h r = granting r

abbrev pub growing_server : Kube
growing_server = record (server_of granting) { answer = λ h c r. growing h r }
