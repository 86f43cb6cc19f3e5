-- ===== src/Hardening/Apply/Safety.antt =====
-- In which order a restriction changes the permissions.
use k2a_token_sync.Base.{
  ◌==◌, and-true, String, ◌≡◌, refl, inl, inr, Bool-cases, List, [], ◌∷◌, arith,
}
use k2a_token_sync.Errors.{Result, ok, err, is_not_found}
use k2a_token_sync.Action.{
  Action, Ensures, Stays, fail, relabelled-ok, >>=-ensures, from_result, on_error, attempt, ◌>>=◌,
  ◌>>◌, then_run,
}
use k2a_token_sync.Kube.{
  Kube, History, local, request, send, get_role, get_role_binding, create_role, update_role,
  create_role_binding, update_role_binding,
}
use k2a_token_sync.Kube.Objects.{Role, RoleBinding}
use k2a_token_sync.Kube.Trace.{Licensed}
use k2a_token_sync.Hardening.{Names, field_manager}
use k2a_token_sync.Hardening.Rules.{restricted_role, restricted_role_binding}
use k2a_token_sync.Hardening.Inspect.{
  require-ok, inspect_account, inspect_baseline, inspect_baseline_binding, inspect_restricted,
  inspect,
}
use k2a_token_sync.Hardening.Inspect.Trace.{
  inspect_account-Stays, inspect_baseline_binding-Stays, inspect_restricted-Stays,
}
use k2a_token_sync.Hardening.Apply.{
  updated_role, updated_binding, put_role, upsert_role, put_binding, upsert_binding,
  narrow_baseline, verify_objects, apply,
}
use k2a_token_sync.Hardening.Apply.Order.{
  With-Reads, Heard, here, there, Recognised, Granting, Binding, JustRead, Ordered, With,
  verify_objects-Stays,
}

module _ (kube : Kube) (names : Names) (secret_names : List String) where
  abbrev InOrder : History → Type 0
  InOrder = Licensed (Ordered kube names secret_names)

  abbrev Known : History → Type 0
  Known = Heard kube (Recognised kube names secret_names)

  abbrev Granted : History → Type 0
  Granted = Heard kube (Granting kube names secret_names)

  abbrev Bound : History → Type 0
  Bound = Heard kube (Binding kube names secret_names)

  abbrev wanted : Role
  wanted = restricted_role names secret_names

  abbrev wanted_binding : RoleBinding
  wanted_binding = restricted_role_binding names

  -- From what is known before a step to what is known once it has succeeded, in order throughout.
  abbrev Gains : (History → Type 0) → (History → Type 0) → Action History (Unit {0}) → Type 0
  Gains P Q m =
      (h : History)
      → With kube names secret_names P h
      → Ensures m h (λ r after. InOrder after × (r ≡ ok tt → Q after))

  Stays-Gains :
      {P : History → Type 0} (m : Action History (Unit {0}))
      → Stays (With kube names secret_names P) m
      → Gains P P m
  Stays-Gains m keeps h i = let (l, p) = keeps.stays h i in (l, λ good. p)

  >>-Gains :
      (P Q R : History → Type 0) (m k : Action History (Unit {0}))
      → Gains P Q m
      → Gains Q R k
      → Gains P R (m >> k)
  >>-Gains P Q R m k first rest h i =
      >>=-ensures m (λ _. k) h (λ r after. InOrder after × (r ≡ ok tt → R after))
        (λ a e. rest (m h).1 ((first h i).0, (first h i).1 e))
        (λ f e. ((first h i).0, λ bad. absurd (ground arith)))

  abbrev Nothing : History → Type 0
  Nothing h = Unit

  inspect_baseline-Gains : Gains Nothing Known (inspect_baseline kube names)
  unfolding inspect_baseline send on_error from_result
  inspect_baseline-Gains h (l, _) =
      >>=-ensures _ _ h (λ r after. InOrder after × (r ≡ ok tt → Known after))
        (λ baseline e. (
          (tt, l),
          λ good.
              here (get_role names.argocd_namespace names.baseline_role) baseline h
                (relabelled-ok _ _ baseline e)
                (
                  refl,
                  refl,
                  ((and-true _ _).0 (require-ok _ _ good)).0,
                  ((and-true _ _).0 (require-ok _ _ good)).1,
                ),
        ))
        (λ f e. ((tt, l), λ bad. absurd (ground arith)))

  put_role-Gains :
      (found : Result Role) (h : History)
      → InOrder h
      → Known h
      → ((existing : Role)
          → found ≡ ok existing
          → JustRead kube names secret_names names.restricted_role existing h)
      → Ensures
          (put_role kube wanted found)
          h
          (λ r after. InOrder after × (r ≡ ok tt → Granted after))
  unfolding send on_error fail
  put_role-Gains (ok existing) h l known read = (
    (inl (known, (existing, read existing refl, refl)), l),
    λ good.
        here (update_role field_manager (updated_role existing wanted)) tt h
          (relabelled-ok _ _ tt good) (existing, refl),
  )
  put_role-Gains (err e) h l known read = elim (Bool-cases (is_not_found e)) [
    | inl missing ↦ rw missing (
      ((known, refl), l),
      λ good. here (create_role field_manager wanted) tt h (relabelled-ok _ _ tt good) refl,
    )
    | inr other ↦ rw other (l, λ bad. absurd (ground arith))
  ]

  upsert_role-Gains : Gains Known Granted (upsert_role kube wanted)
  unfolding upsert_role ◌>>=◌ then_run attempt send restricted_role
  upsert_role-Gains h (l, known) =
      put_role-Gains (kube.answer h local (get_role names.argocd_namespace names.restricted_role))
        (request local (get_role names.argocd_namespace names.restricted_role) ∷ h) (tt, l)
        (there _ h known) (λ existing e. (h, refl, e))

  abbrev Both : History → Type 0
  Both h = Granted h × Bound h

  put_binding-Gains :
      (found : Result RoleBinding) (h : History)
      → With kube names secret_names Granted h
      → Ensures
          (put_binding kube wanted_binding found)
          h
          (λ r after. InOrder after × (r ≡ ok tt → Both after))
  unfolding send on_error fail
  put_binding-Gains (ok existing) h (l, granted) = (
    ((granted, (existing, refl)), l),
    λ good. (
      there _ h granted,
      here (update_role_binding field_manager (updated_binding existing wanted_binding)) tt h
          (relabelled-ok _ _ tt good) (existing, refl),
    ),
  )
  put_binding-Gains (err e) h (l, granted) = elim (Bool-cases (is_not_found e)) [
    | inl missing ↦ rw missing (
      ((granted, refl), l),
      λ good. (
        there _ h granted,
        here (create_role_binding field_manager wanted_binding) tt h (relabelled-ok _ _ tt good)
            refl,
      ),
    )
    | inr other ↦ rw other (l, λ bad. absurd (ground arith))
  ]

  upsert_binding-Gains : Gains Granted Both (upsert_binding kube wanted_binding)
  unfolding upsert_binding ◌>>=◌ then_run attempt send restricted_role_binding
  upsert_binding-Gains h (l, granted) =
      put_binding-Gains
        (kube.answer h local (get_role_binding names.argocd_namespace names.restricted_binding))
        (request local (get_role_binding names.argocd_namespace names.restricted_binding) ∷ h)
        ((tt, l), there _ h granted)

  narrow_baseline-Gains : Gains Both Both (narrow_baseline kube names)
  unfolding narrow_baseline send on_error
  narrow_baseline-Gains h (l, (granted, bound)) =
      >>=-ensures _ _ h (λ r after. InOrder after × (r ≡ ok tt → Both after))
        (λ existing e. (
          (
            inr (
              there _ h granted,
              there _ h bound,
              (existing, (h, refl, relabelled-ok _ _ existing e), refl),
            ),
            (tt, l),
          ),
          λ good. (there _ _ (there _ h granted), there _ _ (there _ h bound)),
        ))
        (λ f e. ((tt, l), λ bad. absurd (ground arith)))

  inspect-Gains : Gains Nothing Known (inspect kube names)
  unfolding inspect fail
  inspect-Gains h i =
      let recognised = Known in
      let known = With-Reads kube names secret_names Known there in
      elim (Bool-cases (names.namespace == names.argocd_namespace)) [
        | inl same ↦ rw same (i.0, λ bad. absurd (ground arith))
        | inr other ↦ rw other (
            >>-Gains Nothing Nothing recognised _ _
              (Stays-Gains (inspect_account kube names) (
                inspect_account-Stays kube names
                  (With-Reads kube names secret_names Nothing (λ c h i. tt))))
              (>>-Gains Nothing recognised recognised _ _ inspect_baseline-Gains (
                >>-Gains recognised recognised recognised _ _
                  (Stays-Gains (inspect_baseline_binding kube names)
                    (inspect_baseline_binding-Stays kube names known))
                  (Stays-Gains (inspect_restricted kube names)
                    (inspect_restricted-Stays kube names known))))
              h i)
      ]

  apply-Gains : Gains Nothing Both (apply kube names secret_names)
  unfolding apply
  apply-Gains = >>-Gains Nothing Known Both _ _ inspect-Gains (
      >>-Gains Known Granted Both _ _ upsert_role-Gains (
        >>-Gains Granted Both Both _ _ upsert_binding-Gains (
          >>-Gains Both Both Both _ _ narrow_baseline-Gains (
            Stays-Gains (verify_objects kube names wanted) (
              verify_objects-Stays kube names secret_names (λ c h b. (there c h b.0, there c h b.1))
                wanted)))))

-- In a restriction, whatever the API server answers, nothing is sent but reads, the restricted
-- Role, its RoleBinding and the baseline Role: the restricted Role only after the baseline Role
-- was read and recognised as the chart's, the RoleBinding only after the restricted Role was
-- written, and the baseline Role only after both were, as it was read by the call before but with
-- its rules narrowed.
pub apply-Ordered :
    (kube : Kube) (names : Names) (secret_names : List String)
    → Licensed (Ordered kube names secret_names) (apply kube names secret_names []).1
apply-Ordered kube names secret_names = (apply-Gains kube names secret_names [] (tt, tt)).0
