-- ===== src/Hardening/Inspect.antt =====
-- Inspect, baselineRulesExpected and bindingMatches: the live objects that restriction relies on. Rules
-- are compared in every field, and a list that is nil is an empty one.
pub mod Trace
use k2a_token_sync.Base.{
  ◌≡◌, refl, arith, String, concat, Bool, true, false, ◌&&◌, ◌||◌, List, [], ◌∷◌, if◌then◌else◌,
  ◌==◌,
}
use k2a_token_sync.Errors.{Error, Result, ok, err, new_error, wrap, is_not_found}
use k2a_token_sync.Action.{Action, fail, from_result, attempt, on_error, ◌>>=◌, ◌>>◌}
use k2a_token_sync.Kube.{
  Kube, History, local, send, get_service_account, get_role, get_role_binding,
}
use k2a_token_sync.Kube.Objects.{PolicyRule, Role, RoleBinding, Subject}
use k2a_token_sync.Hardening.{Names}
use k2a_token_sync.Hardening.Rules.{baseline_rules, owned, chart_identity}

-- reflect.DeepEqual on lists
unfoldable pub same_list {ℓ} : {A : Type ℓ} → (A → A → Bool) → List A → List A → Bool
same_list eq [] [] = true
same_list eq (x ∷ xs) (y ∷ ys) = eq x y && same_list eq xs ys
same_list eq _ _ = false

abbrev pub same_texts : List String → List String → Bool
same_texts = same_list (λ a b. a == b)

abbrev pub same_rule : PolicyRule → PolicyRule → Bool
same_rule r s =
    same_texts r.api_groups s.api_groups
    && same_texts r.resources s.resources
    && same_texts r.resource_names s.resource_names
    && same_texts r.verbs s.verbs
    && same_texts r.non_resource_urls s.non_resource_urls

abbrev pub same_rules : List PolicyRule → List PolicyRule → Bool
same_rules = same_list same_rule

abbrev pub equal_subject : Subject → Subject → Bool
equal_subject s t =
    s.api_group == t.api_group && s.kind == t.kind && s.name == t.name && s.namespace == t.namespace

-- baselineRulesExpected
unfoldable pub baseline_rules_expected : List PolicyRule → Bool
unfolding same_list baseline_rules
baseline_rules_expected rules =
    same_rules rules (baseline_rules true) || same_rules rules (baseline_rules false)

-- bindingMatches
unfoldable pub binding_matches : RoleBinding → String → Names → Bool
unfolding same_list
binding_matches binding role names =
    binding.role_ref.api_group == "rbac.authorization.k8s.io"
    && binding.role_ref.kind == "Role"
    && binding.role_ref.name == role
    && same_list equal_subject binding.subjects (
        record {
          api_group = "";
          kind = "ServiceAccount";
          name = names.service_account;
          namespace = names.namespace;
        }
        ∷ [])

-- `if !good { return errors.New(…) }`
abbrev pub require : Bool → String → Result (Unit {0})
require good text = if good then ok tt else err (new_error text)

pub require-ok : (good : Bool) (text : String) → require good text ≡ ok tt → good ≡ true
require-ok true text h = refl
require-ok false text h = absurd (ground arith)

abbrev pub within : String → String → String
within namespace name = concat (namespace ∷ "/" ∷ name ∷ [])

-- What Inspect makes of the restricted Role: it may be absent.
unfoldable pub check_restricted_role : Names → Result Role → Result (Unit {0})
unfolding owned concat
check_restricted_role names (ok existing) = require (owned existing.labels) (
    concat (
      "restricted Role "
      ∷ within names.argocd_namespace names.restricted_role
      ∷ " already exists without k2a-token-sync ownership labels; refusing to overwrite it"
      ∷ []))
check_restricted_role names (err e) =
    if is_not_found e
    then ok tt
    else err (
        wrap
          (concat (
            "reading restricted Role "
            ∷ within names.argocd_namespace names.restricted_role
            ∷ ": "
            ∷ []))
          e "")

-- What it makes of the restricted RoleBinding.
unfoldable pub check_restricted_binding : Names → Result RoleBinding → Result (Unit {0})
unfolding owned binding_matches concat
check_restricted_binding names (ok existing) =
    require (owned existing.labels && binding_matches existing names.restricted_role names) (
      concat (
        "restricted RoleBinding "
        ∷ within names.argocd_namespace names.restricted_binding
        ∷ " has unexpected ownership, roleRef, or subjects; refusing to overwrite it"
        ∷ []))
check_restricted_binding names (err e) =
    if is_not_found e
    then ok tt
    else err (
        wrap
          (concat (
            "reading restricted RoleBinding "
            ∷ within names.argocd_namespace names.restricted_binding
            ∷ ": "
            ∷ []))
          e "")

module _ (kube : Kube) (names : Names) where
  -- A read whose error is reported under a title.
  abbrev reading : String → String → Error → Error
  reading what name e = wrap (concat (what ∷ name ∷ ": " ∷ [])) e ""

  unfoldable pub inspect_account : Action History (Unit {0})
  unfolding chart_identity concat
  inspect_account = do
    let account = within names.namespace names.service_account
    found ←
        on_error (reading "reading controller ServiceAccount " account)
          (send kube local (get_service_account names.namespace names.service_account))
    from_result (
        require (chart_identity found.labels names.service_account) (
          concat (
            "ServiceAccount " ∷ account
            ∷ " does not have the expected Helm identity labels; refusing to bind an unrecognised subject"
            ∷ [])))

  unfoldable pub inspect_baseline : Action History (Unit {0})
  unfolding chart_identity baseline_rules_expected concat
  inspect_baseline = do
    let role = within names.argocd_namespace names.baseline_role
    baseline ←
        on_error (reading "reading baseline Role " role)
          (send kube local (get_role names.argocd_namespace names.baseline_role))
    from_result (
        require
          (chart_identity baseline.labels names.service_account
            && baseline_rules_expected baseline.rules)
          (concat (
            "baseline Role " ∷ role
            ∷ " has unexpected identity labels or rules; refusing to replace RBAC not recognised as the chart's create/patch policy"
            ∷ [])))

  unfoldable pub inspect_baseline_binding : Action History (Unit {0})
  unfolding chart_identity binding_matches concat
  inspect_baseline_binding = do
    let binding = within names.argocd_namespace names.baseline_role_binding
    bound ←
        on_error (reading "reading baseline RoleBinding " binding)
          (send kube local (get_role_binding names.argocd_namespace names.baseline_role_binding))
    from_result (
        require
          (chart_identity bound.labels names.service_account
            && binding_matches bound names.baseline_role names)
          (concat (
            "baseline RoleBinding " ∷ binding
            ∷ " has unexpected identity labels, roleRef, or subject; refusing to overwrite foreign RBAC"
            ∷ [])))

  unfoldable pub inspect_restricted : Action History (Unit {0})
  unfolding check_restricted_role check_restricted_binding
  inspect_restricted = do
    role ← attempt (send kube local (get_role names.argocd_namespace names.restricted_role))
    from_result (check_restricted_role names role)
    binding ←
        attempt (send kube local (get_role_binding names.argocd_namespace names.restricted_binding))
    from_result (check_restricted_binding names binding)

  -- Inspect
  unfoldable pub inspect : Action History (Unit {0})
  unfolding inspect_account inspect_baseline inspect_baseline_binding inspect_restricted
  inspect =
      if names.namespace == names.argocd_namespace
      then fail (
          new_error
            "the Argo CD namespace and k2a-token-sync namespace are the same; the controller's same-namespace Role already has broad Secret access, so restriction would provide no isolation")
      else do inspect_account; inspect_baseline; inspect_baseline_binding; inspect_restricted
