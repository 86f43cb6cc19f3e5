-- ===== src/Hardening/Apply.antt =====
-- Apply, upsertRole, upsertBinding and verifyObjects: the narrow permission is installed before the
-- broad one is removed.
pub mod Installed
pub mod Order
pub mod Safety
use k2a_token_sync.Base.{String, concat, false, ◌&&◌, List, [], ◌∷◌, if◌then◌else◌}
use k2a_token_sync.Errors.{Error, Result, ok, err, wrap, is_not_found}
use k2a_token_sync.Action.{Action, fail, from_result, attempt, on_error, ◌>>=◌, ◌>>◌}
use k2a_token_sync.Kube.{
  Kube, History, local, send, get_role, create_role, update_role, get_role_binding,
  create_role_binding, update_role_binding,
}
use k2a_token_sync.Kube.Objects.{Role, RoleBinding}
use k2a_token_sync.Hardening.{Names, field_manager}
use k2a_token_sync.Hardening.Rules.{
  baseline_rules, owned, merge, restricted_role, restricted_role_binding,
}
use k2a_token_sync.Hardening.Inspect.{
  same_list, same_rules, binding_matches, inspect, require, within,
}

abbrev pub titled : String → String → String → Error → Error
titled what namespace name e = wrap (concat (what ∷ within namespace name ∷ ": " ∷ [])) e ""

-- What an update of a Role that exists sends.
unfoldable pub updated_role : Role → Role → Role
unfolding merge
updated_role existing desired = record existing {
  labels = merge existing.labels desired.labels;
  annotations = merge existing.annotations desired.annotations;
  rules = desired.rules;
}

unfoldable pub updated_binding : RoleBinding → RoleBinding → RoleBinding
unfolding merge
updated_binding existing desired = record existing {
  labels = merge existing.labels desired.labels;
  annotations = merge existing.annotations desired.annotations;
  role_ref = desired.role_ref;
  subjects = desired.subjects;
}

module _ (kube : Kube) where
  -- upsertRole, after its read
  abbrev pub put_role : Role → Result Role → Action History (Unit {0})
  put_role desired (ok existing) =
      on_error (titled "updating restricted Role " desired.namespace desired.name)
        (send kube local (update_role field_manager (updated_role existing desired)))
  put_role desired (err e) =
      if is_not_found e
      then on_error (titled "creating restricted Role " desired.namespace desired.name)
          (send kube local (create_role field_manager desired))
      else fail (titled "reading restricted Role " desired.namespace desired.name e)

  -- upsertRole
  unfoldable pub upsert_role : Role → Action History (Unit {0})
  unfolding updated_role concat
  upsert_role desired = do
    found ← attempt (send kube local (get_role desired.namespace desired.name))
    put_role desired found

  -- upsertBinding, after its read
  abbrev pub put_binding : RoleBinding → Result RoleBinding → Action History (Unit {0})
  put_binding desired (ok existing) =
      on_error (titled "updating restricted RoleBinding " desired.namespace desired.name)
        (send kube local (update_role_binding field_manager (updated_binding existing desired)))
  put_binding desired (err e) =
      if is_not_found e
      then on_error (titled "creating restricted RoleBinding " desired.namespace desired.name)
          (send kube local (create_role_binding field_manager desired))
      else fail (titled "reading restricted RoleBinding " desired.namespace desired.name e)

  -- upsertBinding
  unfoldable pub upsert_binding : RoleBinding → Action History (Unit {0})
  unfolding updated_binding concat
  upsert_binding desired = do
    found ← attempt (send kube local (get_role_binding desired.namespace desired.name))
    put_binding desired found

  module _ (names : Names) where
    -- The re-read of the baseline Role, and its update.
    unfoldable pub narrow_baseline : Action History (Unit {0})
    unfolding baseline_rules concat
    narrow_baseline = do
      baseline ←
          on_error (λ e. wrap "re-reading baseline Role before restricting it: " e "")
            (send kube local (get_role names.argocd_namespace names.baseline_role))
      on_error
          (titled "removing namespace-wide patch from baseline Role " names.argocd_namespace
            names.baseline_role)
          (send kube local
            (update_role field_manager (record baseline { rules = baseline_rules false })))

    -- verifyObjects
    unfoldable pub verify_objects : Role → Action History (Unit {0})
    unfolding owned same_list binding_matches baseline_rules
    verify_objects role = do
      actual_role ←
          on_error (λ e. wrap "reading back restricted Role: " e "")
            (send kube local (get_role names.argocd_namespace names.restricted_role))
      from_result (
          require (owned actual_role.labels && same_rules actual_role.rules role.rules)
            "restricted Role read-back differs from the intended policy")
      actual_binding ←
          on_error (λ e. wrap "reading back restricted RoleBinding: " e "")
            (send kube local (get_role_binding names.argocd_namespace names.restricted_binding))
      from_result (
          require
            (owned actual_binding.labels
              && binding_matches actual_binding names.restricted_role names)
            "restricted RoleBinding read-back differs from the intended policy")
      baseline ←
          on_error (λ e. wrap "reading back baseline Role: " e "")
            (send kube local (get_role names.argocd_namespace names.baseline_role))
      from_result (
          require (same_rules baseline.rules (baseline_rules false))
            "baseline Role read-back still contains unexpected permission")

    -- Apply
    unfoldable pub apply : List String → Action History (Unit {0})
    unfolding inspect restricted_role upsert_role restricted_role_binding upsert_binding
        narrow_baseline verify_objects
    apply secret_names = do
      inspect kube names
      upsert_role (restricted_role names secret_names)
      upsert_binding (restricted_role_binding names)
      narrow_baseline
      verify_objects (restricted_role names secret_names)
