-- ===== src/Kube.antt =====
-- The API servers behind client-go, as a parameter: what each request is answered with may depend on
-- every call made before. One trace holds the calls to the cluster that runs Argo CD and to the
-- downstream cluster, and the TLS connections of the probe.
pub mod Objects
pub mod Secrets
pub mod Trace
use k2a_token_sync.Base.{String, Bool, Option, List, ◌∷◌, ℕ}
use k2a_token_sync.Base.Int.{ℤ}
use k2a_token_sync.Base.Dict.{Dict}
use k2a_token_sync.Time.{Time}
use k2a_token_sync.Errors.{Error, Result, ok, err}
use k2a_token_sync.Action.{Action}
use Objects.{
  Role, RoleBinding, ClusterRole, ClusterRoleBinding, ServiceAccount, Secret, TokenStatus,
}

-- Whom a request goes to, and as whom: the cluster the tool runs in, a context of the
-- administrator's kubeconfig, or a server with a bearer token and the CA it is verified against.
pub data Client : Type 0 where
  local selected : Client
  by_token : (server token ca : String) → Client

pub data Request : Type 0 where
  get_secret : (namespace name : String) → Request
  create_secret update_secret : Secret → Request
  -- with Force
  apply_secret : (field_manager : String) → Secret → Request
  get_service_account : (namespace name : String) → Request
  create_service_account : ServiceAccount → Request
  get_cluster_role_binding : (name : String) → Request
  create_cluster_role_binding : ClusterRoleBinding → Request
  delete_cluster_role_binding : (name : String) → Request
  create_cluster_role update_cluster_role : ClusterRole → Request
  get_config_map : (namespace name : String) → Request
  create_token : (namespace name : String) → (expiration_seconds : ℤ) → Request
  review_access : (verb group resource : String) → Request
  get_role : (namespace name : String) → Request
  create_role update_role : (field_manager : String) → Role → Request
  get_role_binding : (namespace name : String) → Request
  create_role_binding update_role_binding : (field_manager : String) → RoleBinding → Request

-- What a request that succeeds is answered with, as far as the program looks at it.
abbrev pub Reply : Request → Type 0
Reply (get_secret _ _) = Secret
Reply (get_service_account _ _) = ServiceAccount
Reply (apply_secret _ _) = Secret
Reply (get_cluster_role_binding _) = ClusterRoleBinding
Reply (get_config_map _ _) = Dict String
Reply (create_token _ _ _) = TokenStatus
Reply (review_access _ _ _) = Bool
Reply (get_role _ _) = Role
Reply (get_role_binding _ _) = RoleBinding
Reply _ = Unit

-- x509.Certificate, as the probe uses it. The last field says what VerifyHostname
-- finds wrong with a host.
pub record Certificate : Type 0 where
  pub not_after : Time
  pub subject : String
  pub serial : String
  pub dns_names : List String
  pub ip_addresses : List String
  pub verify_hostname : String → Option Error

-- What a TLS dial that reached a server ends with: the chain that was presented, and whether Go
-- refused it with a tls.CertificateVerificationError.
pub record Handshake : Type 0 where
  pub refused : Bool
  pub chain : List Certificate

pub data Call : Type 0 where
  request : Client → Request → Call
  dial : (endpoint host ca : String) → Call

-- The calls made so far, the latest first.
abbrev pub History : Type 0
History = List Call

pub record Kube : Type 0 where
  pub answer : History → Client → (r : Request) → Result (Reply r)
  pub handshake : History → (endpoint host ca : String) → Result Handshake
  -- leaf.Verify with the roots of the bundle and the intermediates of the chain
  pub verify_chain : (ca : String) → List Certificate → Option Error
  -- AppendCertsFromPEM
  pub has_certificates : String → Bool
  -- kubernetes.NewForConfig with a server, a token and a CA
  pub client_error : (server token ca : String) → Option Error
  -- apierrors.NewConflict on a Secret of the name
  pub new_conflict : String → Error → Error
  -- retry.RetryOnConflict(retry.DefaultRetry, …)
  pub retry_on_conflict : Action History (Unit {0}) → Action History (Unit {0})

-- One request, recorded.
unfoldable pub send : Kube → Client → (r : Request) → Action History (Reply r)
send kube client r h = (kube.answer h client r, request client r ∷ h)
