-- ===== src/Downstream/Ensure/Sound.antt =====
-- What an identity that was ensured is known to grant.
use k2a_token_sync.Base.{
  String, ◌<>◌, ◌≡◌, ◌≢◌, ◌⊎◌, inl, inr, refl, sym, ap, ap₂, subst, Bool, true, false, Bool-cases,
  ◌∷◌, ◌==◌, ◌&&◌, any, arith,
}
use k2a_token_sync.Errors.{Error, Result, ok, err, is_not_found, is_already_exists}
use k2a_token_sync.Action.{
  Returns, >>=-Returns, pure-Returns, from_result-Returns, attempt-Returns, fail, attempt,
  from_result, ◌>>=◌, then_run,
}
use k2a_token_sync.Format.{Printer}
use k2a_token_sync.Kube.{
  Client, Kube, History, send, request, get_cluster_role_binding, create_cluster_role_binding,
}
use k2a_token_sync.Kube.Objects.{ClusterRoleBinding}
use k2a_token_sync.Downstream.{cluster_role_binding, Repairs}
use k2a_token_sync.Downstream.Ensure.{
  created_or, check_binding, after_binding, ensure_cluster_role_binding, ensure_argocd_identity,
}

module _ (p : Printer) (kube : Kube) (client : Client) where
  -- The binding was read, to the role and with the account among its subjects, and was left alone.
  abbrev pub Found : String → String → String → String → History → Bool → History → Type 0
  Found binding_name cluster_role sa_namespace sa_name h made after =
      (existing : ClusterRoleBinding) × (kube.answer h client
          (get_cluster_role_binding binding_name)
        ≡ ok existing)
      × (existing.role_ref.name ≡ cluster_role)
      × (any (λ s. s.kind == "ServiceAccount" && s.name == sa_name && s.namespace == sa_namespace)
            existing.subjects
          ≡ true)
      × (made ≡ false)
      × (after ≡ (request client (get_cluster_role_binding binding_name) ∷ h))

  -- The binding was missing, and its create was accepted or lost to another one's.
  abbrev pub Made : String → String → String → String → History → Bool → History → Type 0
  Made binding_name cluster_role sa_namespace sa_name h made after =
      let reading = get_cluster_role_binding binding_name in
      let writing =
        create_cluster_role_binding
          (cluster_role_binding binding_name cluster_role sa_namespace sa_name) in
      (e : Error) × (kube.answer h client reading ≡ err e)
      × (is_not_found e ≡ true)
      × (after ≡ (request client writing ∷ request client reading ∷ h))
      × (((made ≡ true) × (kube.answer (request client reading ∷ h) client writing ≡ ok tt))
          ⊎ ((made ≡ false)
              × ((f : Error) × (kube.answer (request client reading ∷ h) client writing ≡ err f)
                  × (is_already_exists f ≡ true))))

  check_binding-ok :
      (binding_name cluster_role sa_namespace sa_name : String) (existing : ClusterRoleBinding)
      (made : Bool)
      → check_binding p kube client binding_name cluster_role sa_namespace sa_name existing
        ≡ ok made
      → (existing.role_ref.name ≡ cluster_role)
        × (any
              (λ s. s.kind == "ServiceAccount" && s.name == sa_name && s.namespace == sa_namespace)
              existing.subjects
            ≡ true)
        × (made ≡ false)
  unfolding check_binding
  check_binding-ok binding_name cluster_role sa_namespace sa_name existing made h =
      (ground arith, ground arith, ground arith)

  created_or-ok :
      (f : Error → Error) (r : Result (Unit {0})) (made : Bool)
      → created_or f r ≡ ok made
      → ((made ≡ true) × (r ≡ ok tt))
        ⊎ ((made ≡ false) × ((e : Error) × (r ≡ err e) × (is_already_exists e ≡ true)))
  created_or-ok f (ok _) made h = inl (ground arith, refl)
  created_or-ok f (err e) made h = inr (ground arith, (e, refl, ground arith))

  after_binding-Returns :
      (binding_name cluster_role sa_namespace sa_name : String) (h : History)
      (found : Result ClusterRoleBinding) (made : Bool) (after : History)
      → kube.answer h client (get_cluster_role_binding binding_name) ≡ found
      → Returns
          (after_binding p kube client binding_name cluster_role sa_namespace sa_name found)
          (request client (get_cluster_role_binding binding_name) ∷ h)
          made
          after
      → Found binding_name cluster_role sa_namespace sa_name h made after
        ⊎ Made binding_name cluster_role sa_namespace sa_name h made after
  unfolding ◌>>=◌ then_run attempt send from_result fail
  after_binding-Returns binding_name cluster_role sa_namespace sa_name h (ok existing) made after
        said =
      λ rest.
        let (fine, kept) = from_result-Returns rest in
        let (names, lists, unmade) =
          check_binding-ok binding_name cluster_role sa_namespace sa_name existing made fine in
        inl (existing, said, names, lists, unmade, sym kept)
  after_binding-Returns binding_name cluster_role sa_namespace sa_name h (err e) made after said =
      elim (Bool-cases (is_not_found e)) [
        | inl missing ↦ rw missing (λ rest. inr (
          e,
          said,
          missing,
          sym (ap (λ x. x.1) rest),
          created_or-ok _ _ made (ap (λ x. x.0) rest),
        ))
        | inr other ↦ rw other (λ rest. absurd (ground arith))
      ]

  ensure_cluster_role_binding-Returns :
      (binding_name cluster_role sa_namespace sa_name : String) (h : History) (made : Bool)
      (after : History)
      → Returns
          (ensure_cluster_role_binding p kube client binding_name cluster_role sa_namespace sa_name)
          h
          made
          after
      → Found binding_name cluster_role sa_namespace sa_name h made after
        ⊎ Made binding_name cluster_role sa_namespace sa_name h made after
  unfolding ensure_cluster_role_binding send
  ensure_cluster_role_binding-Returns binding_name cluster_role sa_namespace sa_name h made after
        e =
      let (found, mid, read, rest) = >>=-Returns _ _ h made after e in
      let seen = attempt-Returns _ h found mid read in
      after_binding-Returns binding_name cluster_role sa_namespace sa_name h found made after
        (ap (λ x. x.0) seen)
        (subst
          (λ x.
            Returns
              (after_binding p kube client binding_name cluster_role sa_namespace sa_name found) x
              made after)
          (sym (ap (λ x. x.1) seen)) rest)

  -- Where EnsureArgoCDIdentity succeeds, a role to bind was given, and the binding of the account
  -- either was read with that role and with the account among its subjects, and left alone, or was
  -- missing, and its create was accepted or lost to that of another; and which of these is what it
  -- reports.
  pub ensure_argocd_identity_sound :
      (namespace name cluster_role : String) (h : History) (repairs : Repairs) (after : History)
      → Returns (ensure_argocd_identity p kube client namespace name cluster_role) h repairs after
      → (cluster_role ≢ "")
        × ((before : History) × (Found
                (name <> "-role-binding")
                cluster_role
                namespace
                name
                before
                repairs.binding
                after
              ⊎ Made
                  (name <> "-role-binding")
                  cluster_role
                  namespace
                  name
                  before
                  repairs.binding
                  after))
  unfolding ensure_argocd_identity fail
  ensure_argocd_identity_sound namespace name cluster_role h repairs after =
      elim (Bool-cases (cluster_role == "")) [
        | inl empty ↦ rw empty (λ e. absurd (ground arith))
        | inr named ↦ rw named (λ e.
            let (account, mid, made, rest) = >>=-Returns _ _ h repairs after e in
            let (bound, last, ensured, done) = >>=-Returns _ _ mid repairs after rest in
            let (is, left) = pure-Returns done in
            let outcome =
              ensure_cluster_role_binding-Returns (name <> "-role-binding") cluster_role namespace
                name mid bound last ensured in
            (
              ground arith,
              (
                mid,
                subst {A = Bool × History}
                    (λ x.
                      Found (name <> "-role-binding") cluster_role namespace name mid x.0 x.1
                      ⊎ Made (name <> "-role-binding") cluster_role namespace name mid x.0 x.1)
                    (ap₂ (λ b l. (b, l)) (ap (λ x. x.binding) is) left) outcome,
              ),
            ))
      ]
