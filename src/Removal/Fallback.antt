-- ===== src/Removal/Fallback.antt =====
-- The names that a removal falls back to are those that the ClusterConnection had.
use k2a_token_sync.Base.{String, ◌≡◌, ◌∙◌, refl, ap, Option, none, some, arith}
use k2a_token_sync.Errors.{ok}
use k2a_token_sync.Api.{ServiceAccountRef, ClusterConnectionSpec}
use k2a_token_sync.Config.{Cluster}
use k2a_token_sync.Config.Spec.{from_spec, resolved, account_of, or_default}
use k2a_token_sync.Config.Spec.Laws.{from_spec-steps}
use k2a_token_sync.Format.{Printer, Parser}
use k2a_token_sync.Removal.Guards.{RemovalClusterInput, removal_cluster}

-- An operator who repeats the spec's names on the command line.
abbrev pub account_or_blank : Option ServiceAccountRef → ServiceAccountRef
account_or_blank none = record { name = ""; namespace = "" }
account_or_blank (some a) = a

abbrev pub fallback_of : String → ClusterConnectionSpec → RemovalClusterInput
fallback_of name spec = record {
  name = name;
  service_account_name = (account_or_blank spec.service_account).name;
  service_account_namespace = (account_or_blank spec.service_account).namespace;
  self_service_account_name = spec.self_service_account_name;
  secret_name = spec.secret_name;
}

-- The two clusters have the same names for everything that a removal deletes.
abbrev pub SameNames : Cluster → Cluster → Type 0
SameNames c d =
    (c.name ≡ d.name)
    × (c.secret_name ≡ d.secret_name)
    × (c.self_service_account_name ≡ d.self_service_account_name)
    × (c.service_account ≡ d.service_account)

account-same :
    (account : Option ServiceAccountRef)
    → account_of account ≡ (record {
      name = or_default (account_or_blank account).name "argocd-manager";
      namespace = or_default (account_or_blank account).namespace "kube-system";
    })
account-same none = ground arith
account-same (some a) = refl

-- Where FromSpec resolves a spec, RemovalCluster on the same names succeeds, and the two agree on
-- the name of every object that a removal deletes.
pub from_spec-removal_cluster :
    (p : Printer) (r : Parser) (name : String) (spec : ClusterConnectionSpec) (c : Cluster)
    → from_spec p r name spec ≡ ok c
    → (d : Cluster) × (removal_cluster p (fallback_of name spec) ≡ ok d) × SameNames c d
unfolding removal_cluster resolved
from_spec-removal_cluster p r name spec c e =
    let (endpoint, token_ttl, self_token_ttl, threshold, named, short, _, _, _, _, _, is) =
      from_spec-steps p r name spec c e in
    rw (named, short)
      (
        _,
        refl,
        (
          ap (λ x. x.name) is,
          ap (λ x. x.secret_name) is,
          ap (λ x. x.self_service_account_name) is,
          ap (λ x. x.service_account) is ∙ account-same spec.service_account,
        ),
      )
