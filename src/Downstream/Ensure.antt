-- ===== src/Downstream/Ensure.antt =====
-- EnsureServiceAccount, EnsureClusterRoleBinding, EnsureArgoCDIdentity and EnsureSelfIdentity.
pub mod Laws
pub mod Sound
use k2a_token_sync.Base.{
  String, ◌<>◌, concat, Bool, true, false, not, ◌&&◌, Option, none, some, List, [], ◌∷◌,
  if◌then◌else◌, ◌==◌, any,
}
use k2a_token_sync.Errors.{
  Error, Result, ok, err, new_error, sentinel_error, wrap, is_not_found, is_already_exists,
  err_role_ref_immutable,
}
use k2a_token_sync.Action.{
  Action, pure, fail, attempt, from_result, on_error, ◌>>=◌, ◌>>◌, then_run,
}
use k2a_token_sync.Format.{Printer}
use k2a_token_sync.Kube.{
  Client, Kube, History, send, get_service_account, create_service_account,
  get_cluster_role_binding, create_cluster_role_binding, create_cluster_role, update_cluster_role,
}
use k2a_token_sync.Kube.Objects.{Subject, ServiceAccount, ClusterRoleBinding}
use k2a_token_sync.Downstream.{
  service_account, subject_of, cluster_role_binding, self_cluster_role, Repairs,
}

-- ErrRoleRefImmutable
abbrev pub role_ref_immutable : Error
role_ref_immutable =
    sentinel_error err_role_ref_immutable "clusterrolebinding references a different role"

abbrev same_subject : Subject → Subject → Bool
same_subject s t = s.kind == t.kind && s.name == t.name && s.namespace == t.namespace

-- The outcome of a create in the Ensure functions: whether the object had to be created. Losing the
-- race to somebody else is no error.
abbrev pub created_or : (Error → Error) → Result (Unit {0}) → Result Bool
created_or f (ok _) = ok true
created_or f (err e) = if is_already_exists e then ok false else err (f e)

module _ (p : Printer) (kube : Kube) (client : Client) where
  -- EnsureServiceAccount, after its read
  abbrev pub after_account : String → String → Result ServiceAccount → Action History Bool
  after_account namespace name (ok _) = pure false
  after_account namespace name (err e) =
      let account = concat (namespace ∷ "/" ∷ name ∷ []) in
      let creating =
        λ (f : Error). wrap (concat ("creating serviceaccount " ∷ account ∷ ": " ∷ [])) f "" in
      if not (is_not_found e)
      then fail (wrap (concat ("getting serviceaccount " ∷ account ∷ ": " ∷ [])) e "")
      else do
        made ← attempt (send kube client (create_service_account (service_account namespace name)))
        from_result (created_or creating made)

  -- EnsureServiceAccount
  unfoldable pub ensure_service_account : String → String → Action History Bool
  unfolding service_account concat
  ensure_service_account namespace name = do
    found ← attempt (send kube client (get_service_account namespace name))
    after_account namespace name found

  -- What EnsureClusterRoleBinding makes of a binding that exists.
  unfoldable pub check_binding :
      String → String → String → String → ClusterRoleBinding → Result Bool
  unfolding concat any
  check_binding binding_name cluster_role sa_namespace sa_name existing =
      if not (existing.role_ref.name == cluster_role)
      then err (
          wrap "" role_ref_immutable (
            concat (
              ": "
              ∷ binding_name
              ∷ " binds "
              ∷ p.quote existing.role_ref.name
              ∷ " but this connection asks for "
              ∷ p.quote cluster_role
              ∷ ". A roleRef is immutable, so the binding has to be replaced, and k2a-token-sync holds bind on "
              ∷ p.quote existing.role_ref.name
              ∷ " alone — re-run 'k2a-token-sync bootstrap --replace-binding' for this cluster, which has the credentials for both. ArgoCD keeps working until its credential expires"
              ∷ [])))
      else if any (λ s. same_subject s (subject_of sa_namespace sa_name)) existing.subjects
      then ok false
      else err (
          new_error (
            concat (
              "clusterrolebinding " ∷ binding_name ∷ " does not include serviceaccount "
              ∷ sa_namespace ∷ "/" ∷ sa_name ∷ "; resolve manually" ∷ [])))

  -- EnsureClusterRoleBinding, after its read
  abbrev pub after_binding :
      String → String → String → String → Result ClusterRoleBinding → Action History Bool
  after_binding binding_name cluster_role sa_namespace sa_name (ok existing) =
      from_result (check_binding binding_name cluster_role sa_namespace sa_name existing)
  after_binding binding_name cluster_role sa_namespace sa_name (err e) =
      let creating = λ (f : Error).
        wrap (concat ("creating clusterrolebinding " ∷ binding_name ∷ ": " ∷ [])) f "" in
      if not (is_not_found e)
      then fail (wrap (concat ("getting clusterrolebinding " ∷ binding_name ∷ ": " ∷ [])) e "")
      else do
        made ← attempt (
            send kube client (
              create_cluster_role_binding
                (cluster_role_binding binding_name cluster_role sa_namespace sa_name)))
        from_result (created_or creating made)

  -- EnsureClusterRoleBinding
  unfoldable pub ensure_cluster_role_binding :
      String → String → String → String → Action History Bool
  unfolding cluster_role_binding check_binding concat
  ensure_cluster_role_binding binding_name cluster_role sa_namespace sa_name = do
    found ← attempt (send kube client (get_cluster_role_binding binding_name))
    after_binding binding_name cluster_role sa_namespace sa_name found

  -- EnsureArgoCDIdentity. What had been repaired before an error is not looked at by any caller.
  unfoldable pub ensure_argocd_identity : String → String → String → Action History Repairs
  unfolding ensure_service_account ensure_cluster_role_binding concat
  ensure_argocd_identity namespace name cluster_role =
      if cluster_role == ""
      then fail (
          new_error (
            concat (
              "refusing to bind " ∷ namespace ∷ "/" ∷ name
              ∷ " to an empty ClusterRole: the role to bind was never set" ∷ [])))
      else do
        created ← ensure_service_account namespace name
        bound ← ensure_cluster_role_binding (name <> "-role-binding") cluster_role namespace name
        pure (record { service_account = created; binding = bound })

  -- After the create of the ClusterRole: one that exists is brought up to date.
  abbrev pub after_role : String → String → Result (Unit {0}) → Action History (Unit {0})
  after_role name cluster_role (ok _) = pure tt
  after_role name cluster_role (err e) =
      if not (is_already_exists e)
      then fail (wrap (concat ("creating clusterrole " ∷ name ∷ ": " ∷ [])) e "")
      else on_error (λ f. wrap (concat ("updating clusterrole " ∷ name ∷ ": " ∷ [])) f "")
          (send kube client (update_cluster_role (self_cluster_role name cluster_role)))

  -- EnsureSelfIdentity
  unfoldable pub ensure_self_identity : String → String → String → Action History (Unit {0})
  unfolding ensure_service_account ensure_cluster_role_binding self_cluster_role concat
  ensure_self_identity namespace name cluster_role =
      if cluster_role == ""
      then fail (
          new_error (
            concat (
              "refusing to provision " ∷ namespace ∷ "/" ∷ name
              ∷ " with an empty ClusterRole: the role it must be able to bind was never set" ∷ [])))
      else do
        _ ← ensure_service_account namespace name
        made ←
            attempt (send kube client (create_cluster_role (self_cluster_role name cluster_role)))
        after_role name cluster_role made
        _ ← ensure_cluster_role_binding name name namespace name
        pure tt
