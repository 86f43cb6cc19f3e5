-- ===== src/Downstream/Ensure/Laws.antt =====
-- When an identity is repaired, and what provisioning creates.
use k2a_token_sync.Base.{
  Bool, [], ◌&&◌, ◌||◌, String, ◌<>◌, ◌≡◌, ◌≢◌, ◌↔◌, refl, true, false, Bool-cases, inl, inr, ◌∷◌,
  ◌==◌, arith,
}
use k2a_token_sync.Errors.{Error, Result, ok, err, is_not_found}
use k2a_token_sync.Action.{pure, fail, attempt, from_result, ◌>>=◌, then_run}
use k2a_token_sync.Format.{Printer}
use k2a_token_sync.Kube.{
  Client, Kube, History, send, request, get_service_account, create_service_account,
  get_cluster_role_binding, create_cluster_role_binding, create_cluster_role,
}
use k2a_token_sync.Kube.Objects.{ServiceAccount, ClusterRole, ClusterRoleBinding}
use k2a_token_sync.Downstream.{service_account, cluster_role_binding, self_cluster_role}
use k2a_token_sync.Downstream.Ensure.{
  after_account, created_or, ensure_service_account, ensure_cluster_role_binding,
  ensure_argocd_identity, ensure_self_identity,
}

-- A create of the object was sent before.
abbrev pub has_account : String → String → History → Bool
has_account namespace name [] = false
has_account namespace name (request _ (create_service_account a) ∷ h) =
    (a.namespace == namespace && a.name == name) || has_account namespace name h
has_account namespace name (_ ∷ h) = has_account namespace name h

abbrev pub has_role : String → History → Bool
has_role name [] = false
has_role name (request _ (create_cluster_role r) ∷ h) = r.name == name || has_role name h
has_role name (_ ∷ h) = has_role name h

abbrev pub has_binding : String → History → Bool
has_binding name [] = false
has_binding name (request _ (create_cluster_role_binding b) ∷ h) =
    b.name == name || has_binding name h
has_binding name (_ ∷ h) = has_binding name h

module _ (p : Printer) (kube : Kube) (client : Client) where
  created_or-true :
      (f : Error → Error) (x : Result (Unit {0})) → (created_or f x ≡ ok true) ↔ (x ≡ ok tt)
  created_or-true f (ok _) = (λ h. refl, λ h. refl)
  created_or-true f (err e) = ground arith

  -- What a creation by EnsureServiceAccount comes from, given what its read found.
  abbrev pub Created : String → String → Result ServiceAccount → History → Type 0
  Created namespace name found h =
      (e : Error) × (found ≡ err e)
      × (is_not_found e ≡ true)
      × (kube.answer h client (create_service_account (service_account namespace name)) ≡ ok tt)

  after_account-true :
      (namespace name : String) (found : Result ServiceAccount) (h : History)
      → ((after_account p kube client namespace name found h).0 ≡ ok true)
        ↔ Created namespace name found h
  unfolding ◌>>=◌ then_run attempt send from_result pure fail
  after_account-true namespace name (ok _) h =
      (λ bad. absurd (ground arith), λ c. absurd (ground arith))
  after_account-true namespace name (err e) h = elim (Bool-cases (is_not_found e)) [
    | inl missing ↦
        let made = created_or-true _ _ in
        rw missing (λ good. (e, refl, missing, made.0 good), λ c. made.1 c.3)
    | inr other ↦ rw other (λ bad. absurd (ground arith), λ c. absurd (ground arith))
  ]

  -- EnsureServiceAccount reports a creation exactly where its read found no account and its own
  -- create succeeded.
  pub ensure_service_account-true :
      (namespace name : String) (h : History)
      → ((ensure_service_account p kube client namespace name h).0 ≡ ok true)
        ↔ Created namespace name
            (kube.answer h client (get_service_account namespace name))
            (request client (get_service_account namespace name) ∷ h)
  unfolding ensure_service_account ◌>>=◌ then_run attempt send
  ensure_service_account-true namespace name h = after_account-true namespace name _ _

  -- What no create was sent for is not there, and its create is accepted. What is answered about an
  -- object that was created is left open.
  abbrev pub IsBlankCluster : Type 0
  IsBlankCluster =
      ((h : History) (namespace name : String)
        → has_account namespace name h ≡ false
        → (e : Error) × (kube.answer h client (get_service_account namespace name) ≡ err e)
          × (is_not_found e ≡ true))
      × ((h : History) (name : String)
          → has_binding name h ≡ false
          → (e : Error) × (kube.answer h client (get_cluster_role_binding name) ≡ err e)
            × (is_not_found e ≡ true))
      × ((h : History) (a : ServiceAccount)
          → has_account a.namespace a.name h ≡ false
          → kube.answer h client (create_service_account a) ≡ ok tt)
      × ((h : History) (r : ClusterRole)
          → has_role r.name h ≡ false
          → kube.answer h client (create_cluster_role r) ≡ ok tt)
      × ((h : History) (b : ClusterRoleBinding)
          → has_binding b.name h ≡ false
          → kube.answer h client (create_cluster_role_binding b) ≡ ok tt)

  module _ (blank : IsBlankCluster) where
    pub ensure_service_account-blank :
        (namespace name : String) (h : History)
        → has_account namespace name h ≡ false
        → ensure_service_account p kube client namespace name h ≡ (
          ok true,
          request client (create_service_account (service_account namespace name))
              ∷ request client (get_service_account namespace name)
              ∷ h,
        )
    unfolding ensure_service_account ◌>>=◌ then_run attempt send from_result service_account
    ensure_service_account-blank namespace name h free =
        let (e, said, missing) = blank.0 h namespace name free in
        let asked = request client (get_service_account namespace name) ∷ h in
        rw (said, missing, blank.2 asked (service_account namespace name) free) refl

    pub ensure_cluster_role_binding-blank :
        (binding_name cluster_role sa_namespace sa_name : String) (h : History)
        → has_binding binding_name h ≡ false
        → ensure_cluster_role_binding p kube client binding_name cluster_role sa_namespace sa_name h
          ≡ (
            ok true,
            request client (
                  create_cluster_role_binding
                    (cluster_role_binding binding_name cluster_role sa_namespace sa_name))
                ∷ request client (get_cluster_role_binding binding_name)
                ∷ h,
          )
    unfolding ensure_cluster_role_binding ◌>>=◌ then_run attempt send from_result
        cluster_role_binding
    ensure_cluster_role_binding-blank binding_name cluster_role sa_namespace sa_name h free =
        let (e, said, missing) = blank.1 h binding_name free in
        let asked = request client (get_cluster_role_binding binding_name) ∷ h in
        let wanted = cluster_role_binding binding_name cluster_role sa_namespace sa_name in
        rw (said, missing, blank.4 asked wanted free) refl

    abbrev pub bound : String → String → String → String → History → History
    bound binding_name cluster_role sa_namespace sa_name h =
        request client (
          create_cluster_role_binding
            (cluster_role_binding binding_name cluster_role sa_namespace sa_name))
        ∷ request client (get_cluster_role_binding binding_name)
        ∷ h

    abbrev pub accounted : String → String → History → History
    accounted namespace name h =
        request client (create_service_account (service_account namespace name))
        ∷ request client (get_service_account namespace name)
        ∷ h

    pub ensure_argocd_identity-blank :
        (namespace name cluster_role : String) (h : History)
        → cluster_role ≢ ""
        → has_account namespace name h ≡ false
        → has_binding (name <> "-role-binding") h ≡ false
        → ensure_argocd_identity p kube client namespace name cluster_role h ≡ (
          ok (record { service_account = true; binding = true }),
          bound (name <> "-role-binding") cluster_role namespace name (accounted namespace name h),
        )
    unfolding ensure_argocd_identity ◌>>=◌ then_run pure
    ensure_argocd_identity-blank namespace name cluster_role h named no_account unbound =
        let set : cluster_role == "" ≡ false = ground arith in
        let mid = accounted namespace name h in
        rw
          (
            set,
            ensure_service_account-blank namespace name h no_account,
            ensure_cluster_role_binding-blank (name <> "-role-binding") cluster_role namespace name
                mid unbound,
          )
          refl

    -- The calls of EnsureSelfIdentity on a blank cluster.
    abbrev pub self_made : String → String → String → History → History
    self_made namespace name cluster_role h = bound name name namespace name (
        request client (create_cluster_role (self_cluster_role name cluster_role))
        ∷ accounted namespace name h)

    pub ensure_self_identity-blank :
        (namespace name cluster_role : String) (h : History)
        → cluster_role ≢ ""
        → has_account namespace name h ≡ false
        → has_role name h ≡ false
        → has_binding name h ≡ false
        → ensure_self_identity p kube client namespace name cluster_role h
          ≡ (ok tt, self_made namespace name cluster_role h)
    unfolding ensure_self_identity ◌>>=◌ then_run pure attempt send self_cluster_role
    ensure_self_identity-blank namespace name cluster_role h named no_account no_role unbound =
        let set : cluster_role == "" ≡ false = ground arith in
        let mid =
          request client (create_cluster_role (self_cluster_role name cluster_role))
          ∷ accounted namespace name h in
        rw
          (
            set,
            ensure_service_account-blank namespace name h no_account,
            blank.3 (accounted namespace name h) (self_cluster_role name cluster_role) no_role,
            ensure_cluster_role_binding-blank name name namespace name mid unbound,
          )
          refl
