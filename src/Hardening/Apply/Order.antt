-- ===== src/Hardening/Apply/Order.antt =====
-- What a restriction may send, and the steps that only read.
use k2a_token_sync.Base.{refl, arith, String, ◌≡◌, true, false, ◌⊎◌, List, ◌∷◌}
use k2a_token_sync.Errors.{ok}
use k2a_token_sync.Action.{Stays, stays_rules, from_result-Stays, on_error-Stays, >>=-Stays}
use k2a_token_sync.Kube.{
  Kube, History, Call, Request, Reply, local, request, send, get_service_account, get_role,
  get_role_binding, create_role, update_role, create_role_binding, update_role_binding,
}
use k2a_token_sync.Kube.Objects.{Role, RoleBinding}
use k2a_token_sync.Kube.Trace.{Licensed}
use k2a_token_sync.Hardening.{Names}
use k2a_token_sync.Hardening.Rules.{
  baseline_rules, chart_identity, restricted_role, restricted_role_binding,
}
use k2a_token_sync.Hardening.Inspect.{baseline_rules_expected}
use k2a_token_sync.Hardening.Inspect.Trace.{Reads, read-Stays}
use k2a_token_sync.Hardening.Apply.{updated_role, updated_binding, verify_objects}

-- Somewhere in the trace a request of the kind was answered so.
pub data Heard (kube : Kube) (P : (r : Request) → Reply r → Type 0) : History → Type 0 where
  here :
      (r : Request) (a : Reply r) (h : History)
      → kube.answer h local r ≡ ok a
      → P r a
      → Heard kube P (request local r ∷ h)
  there : (c : Call) (h : History) → Heard kube P h → Heard kube P (c ∷ h)

module _ (kube : Kube) (names : Names) (secret_names : List String) where
  abbrev pub desired : Role
  desired = restricted_role names secret_names

  abbrev pub desired_binding : RoleBinding
  desired_binding = restricted_role_binding names

  -- The baseline Role was read, and it is the chart's.
  abbrev pub Recognised : (r : Request) → Reply r → Type 0
  Recognised (get_role namespace name) role =
      (namespace ≡ names.argocd_namespace)
      × (name ≡ names.baseline_role)
      × (chart_identity role.labels names.service_account ≡ true)
      × (baseline_rules_expected role.rules ≡ true)
  Recognised _ _ = ⊥

  -- The restricted Role was written.
  abbrev pub Granting : (r : Request) → Reply r → Type 0
  Granting (create_role _ role) _ = role ≡ desired
  Granting (update_role _ role) _ = (existing : Role) × (role ≡ updated_role existing desired)
  Granting _ _ = ⊥

  -- The RoleBinding was written, from that Role to the controller's account.
  abbrev pub Binding : (r : Request) → Reply r → Type 0
  Binding (create_role_binding _ binding) _ = binding ≡ desired_binding
  Binding (update_role_binding _ binding) _ =
      (existing : RoleBinding) × (binding ≡ updated_binding existing desired_binding)
  Binding _ _ = ⊥

  abbrev pub JustRead : String → Role → History → Type 0
  JustRead name existing h =
      (before : History) × (h ≡ (request local (get_role names.argocd_namespace name) ∷ before))
      × (kube.answer before local (get_role names.argocd_namespace name) ≡ ok existing)

  -- What may be sent, given the calls before: reads; the restricted Role, once the baseline was
  -- recognised; the RoleBinding, once the restricted Role was written; and the narrowed baseline,
  -- once both were.
  abbrev pub Ordered : History → Call → Type 0
  Ordered h (request _ (get_service_account _ _)) = Unit
  Ordered h (request _ (get_role _ _)) = Unit
  Ordered h (request _ (get_role_binding _ _)) = Unit
  Ordered h (request _ (create_role _ role)) = Heard kube Recognised h × (role ≡ desired)
  Ordered h (request _ (update_role _ role)) =
      (Heard kube Recognised h
        × ((existing : Role) × JustRead names.restricted_role existing h
            × (role ≡ updated_role existing desired)))
      ⊎ (Heard kube Granting h
          × Heard kube Binding h
          × ((existing : Role) × JustRead names.baseline_role existing h
              × (role ≡ record existing { rules = baseline_rules false })))
  Ordered h (request _ (create_role_binding _ binding)) =
      Heard kube Granting h × (binding ≡ desired_binding)
  Ordered h (request _ (update_role_binding _ binding)) =
      Heard kube Granting h
      × ((existing : RoleBinding) × (binding ≡ updated_binding existing desired_binding))
  Ordered h _ = ⊥

  -- A trace in order, with something known of it that later calls leave true.
  abbrev pub With : (History → Type 0) → History → Type 0
  With P h = Licensed Ordered h × P h

  abbrev pub Lasts : (History → Type 0) → Type 0
  Lasts P = (c : Call) (h : History) → P h → P (c ∷ h)

  -- A read is always in order.
  pub With-Reads : (P : History → Type 0) → Lasts P → Reads (With P)
  With-Reads P lasts (get_service_account _ _) h e i = ((tt, i.0), lasts _ h i.1)
  With-Reads P lasts (get_role _ _) h e i = ((tt, i.0), lasts _ h i.1)
  With-Reads P lasts (get_role_binding _ _) h e i = ((tt, i.0), lasts _ h i.1)
  With-Reads P lasts _ h e i = absurd (ground arith)

  module _ {P : History → Type 0} (lasts : Lasts P) where
    read_role-Stays :
        (namespace name : String) → Stays (With P) (send kube local (get_role namespace name))
    read_role-Stays namespace name =
        read-Stays kube names (With-Reads P lasts) (get_role namespace name) refl

    read_binding-Stays :
        (namespace name : String)
        → Stays (With P) (send kube local (get_role_binding namespace name))
    read_binding-Stays namespace name =
        read-Stays kube names (With-Reads P lasts) (get_role_binding namespace name) refl

    pub verify_objects-Stays : (role : Role) → Stays (With P) (verify_objects kube names role)
    unfolding verify_objects
    verify_objects-Stays role = >>=-Stays _ _ (on_error-Stays _ _ (read_role-Stays _ _)) (λ found.
        >>=-Stays _ _ (from_result-Stays _)
          (λ good. search (stays_rules, read_role-Stays, read_binding-Stays)))
