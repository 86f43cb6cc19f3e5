-- ===== src/Hardening/Rules.antt =====
-- RestrictedRole, RestrictedRoleBinding, baselineRules, owned, chartIdentity and merge. The API
-- server's evaluation of rules is Kubernetes' own: it is a parameter with its documented behaviour.
use text.Mathlib.TextEquality.{eq_iff}
use k2a_token_sync.Base.{
  String, ◌≡◌, refl, ◌∙◌, Bool, true, false, ◌&&◌, ◌||◌, Option, none, some, List, [], ◌∷◌, ◌++◌,
  if◌then◌else◌, ◌==◌, is_empty, any, contains, arith,
}
use k2a_token_sync.Base.Dict.{Dict, label_is, lookup, insert, lookup-insert, NodupKeys}
use k2a_token_sync.Hardening.{
  Names, managed_by_label, managed_by_value, app_name_label, component_label, component_value,
  sync_wave,
}
use k2a_token_sync.Kube.Objects.{PolicyRule, Role, RoleBinding}

abbrev restricted_rules : List String → List PolicyRule
restricted_rules secret_names =
    if is_empty secret_names
    then []
    else record {
      api_groups = "" ∷ [];
      resources = "secrets" ∷ [];
      resource_names = secret_names;
      verbs = "patch" ∷ [];
      non_resource_urls = [];
    }
      ∷ []

abbrev restricted_labels : Names → Dict String
restricted_labels names =
    (managed_by_label, managed_by_value)
    ∷ (app_name_label, names.service_account)
    ∷ (component_label, component_value)
    ∷ []

-- RestrictedRole
unfoldable pub restricted_role : Names → List String → Role
restricted_role names secret_names = record {
  name = names.restricted_role;
  namespace = names.argocd_namespace;
  labels = restricted_labels names;
  annotations = (sync_wave, "-2") ∷ [];
  rules = restricted_rules secret_names;
}

-- RestrictedRoleBinding
unfoldable pub restricted_role_binding : Names → RoleBinding
restricted_role_binding names = record {
  name = names.restricted_binding;
  namespace = names.argocd_namespace;
  labels = restricted_labels names;
  annotations = (sync_wave, "-1") ∷ [];
  role_ref = record {
    api_group = "rbac.authorization.k8s.io";
    kind = "Role";
    name = names.restricted_role;
  };
  subjects =
      record {
        api_group = "";
        kind = "ServiceAccount";
        name = names.service_account;
        namespace = names.namespace;
      }
      ∷ [];
}

-- baselineRules
unfoldable pub baseline_rules : Bool → List PolicyRule
baseline_rules broad =
    record {
      api_groups = "" ∷ [];
      resources = "secrets" ∷ [];
      resource_names = [];
      verbs = if broad then "create" ∷ "patch" ∷ [] else "create" ∷ [];
      non_resource_urls = [];
    }
    ∷ []

-- owned
unfoldable pub owned : Dict String → Bool
unfolding lookup
owned labels =
    label_is labels managed_by_label managed_by_value
    && label_is labels component_label component_value

-- chartIdentity
unfoldable pub chart_identity : Dict String → String → Bool
unfolding lookup
chart_identity labels name =
    label_is labels managed_by_label "Helm" && label_is labels app_name_label name

-- merge
unfoldable pub merge : Dict String → Dict String → Dict String
unfolding insert
merge into [] = into
merge into ((key, value) ∷ from) = merge (insert key value into) from

-- Whether a rule on the core group grants the verb on the named Secret: the verb and the resource
-- are listed, and so is the name, unless the rule lists no names. No rule of the program uses `*`.
abbrev pub grants : String → String → PolicyRule → Bool
grants verb name rule =
    contains rule.api_groups ""
    && contains rule.resources "secrets"
    && contains rule.verbs verb
    && (is_empty rule.resource_names || contains rule.resource_names name)

-- The API server's authorizer: the rules that apply to a subject, a verb, and a Secret's name.
abbrev pub Authorizer : Type 0
Authorizer = List PolicyRule → String → String → Bool

-- RBAC is additive: a request is allowed where some rule grants it.
abbrev pub IsAdditive : Authorizer → Type 0
IsAdditive allows =
    (rules : List PolicyRule) (verb name : String)
    → allows rules verb name ≡ any (grants verb name) rules

module _ (allows : Authorizer) (additive : IsAdditive allows) where
  -- With an additive authorizer, the restricted Role and the narrowed baseline together allow
  -- create on every Secret, patch on exactly the listed names, and nothing else.
  pub restricted_role-allows :
      (names : Names) (secret_names : List String) (verb name : String)
      → let rules = (restricted_role names secret_names).rules in
        allows (baseline_rules false ++ rules) verb name
        ≡ (verb == "create" || (verb == "patch" && contains secret_names name))
  unfolding restricted_role baseline_rules any contains
  restricted_role-allows names [] verb name = rw additive (ground arith)
  restricted_role-allows names (s ∷ ss) verb name = rw additive (ground arith)

abbrev first_of : Option String → Option String → Option String
first_of (some s) _ = some s
first_of none o = o

-- What is merged in wins over what was there, and every other label is kept.
pub lookup-merge :
    (key : String) (into from : Dict String)
    → NodupKeys from
    → lookup key (merge into from) ≡ first_of (lookup key from) (lookup key into)
unfolding merge lookup
lookup-merge key into [] u = refl
lookup-merge key into ((k, value) ∷ from) (fresh, u) =
    lookup-merge key (insert k value into) from u ∙ rw lookup-insert (ground arith)

restricted_labels-NodupKeys : (names : Names) → NodupKeys (restricted_labels names)
unfolding lookup
restricted_labels-NodupKeys names = ground (
  arith,
  eq_iff managed_by_label app_name_label,
  eq_iff managed_by_label component_label,
  eq_iff app_name_label component_label,
)

-- Whatever labels an object had, once the restricted ones are merged in a later run takes it for
-- its own.
pub owned-merge :
    (names : Names) (secret_names : List String) (labels : Dict String)
    → owned (merge labels (restricted_role names secret_names).labels) ≡ true
unfolding owned restricted_role
owned-merge names secret_names labels =
    rw
      (
        lookup-merge managed_by_label labels (restricted_labels names)
            (restricted_labels-NodupKeys names),
        lookup-merge component_label labels (restricted_labels names)
            (restricted_labels-NodupKeys names),
      )
      (ground
        (arith, eq_iff component_label managed_by_label, eq_iff component_label app_name_label))
