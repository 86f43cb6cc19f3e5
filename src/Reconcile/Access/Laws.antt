-- ===== src/Reconcile/Access/Laws.antt =====
-- What the administrator's provisioning creates, against the list that is printed for a delegated
-- bootstrap.
use mathlib.Core.List.{Perm, Permᴰ}
use k2a_token_sync.Base.{arith, ◌<>◌, ◌≡◌, ◌≢◌, refl, String, List, [], ◌∷◌}
use k2a_token_sync.Base.Int.{ℤ}
use k2a_token_sync.Time.{Duration}
use k2a_token_sync.Action.{Stays, stays_rules, ◌>>=◌, then_run}
use k2a_token_sync.Config.{Cluster}
use k2a_token_sync.Kube.{
  Client, History, send, request, create_service_account, create_cluster_role,
  create_cluster_role_binding, get_config_map, create_token,
}
use k2a_token_sync.Downstream.{
  service_account, cluster_role_binding, Identity, account, role, binding, identity_objects,
  root_ca_config_map,
}
use k2a_token_sync.Downstream.Token.{mint_token, cluster_ca}
use k2a_token_sync.Downstream.Ensure.Laws.{
  IsBlankCluster, self_made, ensure_self_identity-blank, ensure_argocd_identity-blank,
}
use k2a_token_sync.Reconcile.{Reconciler}
use k2a_token_sync.Reconcile.Access.{provision, provision_credential}

-- The objects that creates were sent for, the latest first.
abbrev pub created : History → List Identity
created [] = []
created (request _ (create_service_account a) ∷ h) = account a ∷ created h
created (request _ (create_cluster_role r) ∷ h) = role r ∷ created h
created (request _ (create_cluster_role_binding b) ∷ h) = binding b ∷ created h
created (_ ∷ h) = created h

module _ (rc : Reconciler) (cluster : Cluster) (admin : Client) where
  module _ (os : List Identity) where
    abbrev Unchanged : History → Type 0
    Unchanged h = created h ≡ os

    token-Unchanged :
        (namespace name : String) (seconds : ℤ)
        → Stays Unchanged (send rc.kube admin (create_token namespace name seconds))
    unfolding send
    token-Unchanged namespace name seconds = record { stays = λ h i. i }

    mint-Unchanged :
        (namespace name : String) (ttl : Duration)
        → Stays Unchanged (mint_token rc.printer rc.kube admin namespace name ttl)
    unfolding mint_token
    mint-Unchanged namespace name ttl = search (stays_rules, token-Unchanged)

    bundle-Unchanged :
        (namespace : String)
        → Stays Unchanged (send rc.kube admin (get_config_map namespace root_ca_config_map))
    unfolding send
    bundle-Unchanged namespace = record { stays = λ h i. i }

    ca-Unchanged :
        (namespace : String) → Stays Unchanged (cluster_ca rc.printer rc.kube admin namespace)
    unfolding cluster_ca
    ca-Unchanged namespace = search (stays_rules, bundle-Unchanged)

    credential-Unchanged : Stays Unchanged (provision_credential rc cluster admin)
    unfolding provision_credential
    credential-Unchanged = search (stays_rules, mint-Unchanged, ca-Unchanged)

  shuffled : {A : Type 0} (a b c d e : A) → Perm (b ∷ a ∷ e ∷ d ∷ c ∷ []) (a ∷ b ∷ c ∷ d ∷ e ∷ [])
  shuffled a b c d e =
      let turned = Permᴰ.trans (Permᴰ.cons refl (Permᴰ.swap refl refl)) (Permᴰ.swap refl refl) in
      let tail = Permᴰ.trans (Permᴰ.swap refl refl) turned in
      ∣ Permᴰ.trans (Permᴰ.swap refl refl) (Permᴰ.cons refl (Permᴰ.cons refl tail)) ∣₁

  -- On a cluster that has none of the objects and accepts the create of each one that is not
  -- there, with a role to bind, and with two accounts of which the own one is named neither like
  -- the one of Argo CD nor like its binding, provisioning by the administrator creates exactly the
  -- objects that IdentityObjects prints for a delegated bootstrap, each of them once.
  pub provision-identity_objects :
      IsBlankCluster rc.printer rc.kube admin
      → cluster.cluster_role ≢ ""
      → cluster.self_service_account_name ≢ cluster.service_account.name
      → cluster.self_service_account_name ≢ (cluster.service_account.name <> "-role-binding")
      → Perm (created (provision rc cluster admin []).1) (
          identity_objects cluster.service_account.namespace cluster.service_account.name
            cluster.self_service_account_name cluster.cluster_role)
  unfolding provision ◌>>=◌ then_run identity_objects service_account cluster_role_binding
  provision-identity_objects blank named apart unlike =
      let ns = cluster.service_account.namespace in
      let own = cluster.self_service_account_name in
      let first =
        ensure_self_identity-blank rc.printer rc.kube admin blank ns own cluster.cluster_role []
          named refl refl refl in
      let second =
        ensure_argocd_identity-blank rc.printer rc.kube admin blank ns cluster.service_account.name
          cluster.cluster_role
          (self_made rc.printer rc.kube admin blank ns own cluster.cluster_role []) named
          (ground arith) (ground arith) in
      rw (first, second, (credential-Unchanged _).stays _ refl) (shuffled _ _ _ _ _)
