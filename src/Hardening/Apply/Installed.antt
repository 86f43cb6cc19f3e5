-- ===== src/Hardening/Apply/Installed.antt =====
-- What a restriction that succeeds has read back, and what is allowed then.
use text.Mathlib.TextEquality.{eq_iff}
use k2a_token_sync.Base.{
  String, ◌≡◌, refl, sym, ap, ap₂, ◌∙◌, subst, Bool, true, false, ◌&&◌, ◌||◌, List, [], ◌∷◌, ◌++◌,
  ◌==◌, contains, arith,
}
use k2a_token_sync.Errors.{ok}
use k2a_token_sync.Action.{Returns, >>=-Returns, on_error-Returns, from_result-Returns}
use k2a_token_sync.Kube.{Kube, History, local, request, get_role, get_role_binding}
use k2a_token_sync.Kube.Objects.{PolicyRule, Role, RoleBinding}
use k2a_token_sync.Kube.Trace.{send-Returns}
use k2a_token_sync.Hardening.{Names}
use k2a_token_sync.Hardening.Rules.{
  baseline_rules, owned, restricted_role, Authorizer, IsAdditive, restricted_role-allows,
}
use k2a_token_sync.Hardening.Inspect.{
  same_list, same_texts, same_rule, same_rules, binding_matches, require-ok,
}
use k2a_token_sync.Hardening.Apply.{verify_objects, apply}

pub same_list-≡ {ℓ} :
    {A : Type ℓ} (eq : A → A → Bool)
    → ((a b : A) → eq a b ≡ true → a ≡ b)
    → (xs ys : List A) → same_list eq xs ys ≡ true
    → xs ≡ ys
unfolding same_list
same_list-≡ eq sound [] [] h = refl
same_list-≡ eq sound [] (y ∷ ys) h = absurd (ground arith)
same_list-≡ eq sound (x ∷ xs) [] h = absurd (ground arith)
same_list-≡ eq sound (x ∷ xs) (y ∷ ys) h =
    ap₂ (λ a rest. a ∷ rest) (sound x y (ground arith)) (same_list-≡ eq sound xs ys (ground arith))

same_texts-≡ : (xs ys : List String) → same_texts xs ys ≡ true → xs ≡ ys
same_texts-≡ = same_list-≡ (λ a b. a == b) (λ a b h. ground (arith, eq_iff a b))

same_rule-≡ : (r s : PolicyRule) → same_rule r s ≡ true → r ≡ s
same_rule-≡ r s h =
    let groups = same_texts-≡ r.api_groups s.api_groups (ground arith) in
    let resources = same_texts-≡ r.resources s.resources (ground arith) in
    let names = same_texts-≡ r.resource_names s.resource_names (ground arith) in
    let verbs = same_texts-≡ r.verbs s.verbs (ground arith) in
    let urls = same_texts-≡ r.non_resource_urls s.non_resource_urls (ground arith) in cc

pub same_rules-≡ : (rs ss : List PolicyRule) → same_rules rs ss ≡ true → rs ≡ ss
same_rules-≡ = same_list-≡ same_rule same_rule-≡

module _ (kube : Kube) (names : Names) where
  abbrev reading_role : History → History
  reading_role h = request local (get_role names.argocd_namespace names.restricted_role) ∷ h

  abbrev reading_binding : History → History
  reading_binding h =
      request local (get_role_binding names.argocd_namespace names.restricted_binding) ∷ h

  abbrev reading_baseline : History → History
  reading_baseline h = request local (get_role names.argocd_namespace names.baseline_role) ∷ h

  -- The three objects as the server returned them, one after the other, at the end of a trace.
  abbrev pub ReadBack : Role → RoleBinding → Role → History → History → Type 0
  ReadBack role binding baseline h after =
      (kube.answer h local (get_role names.argocd_namespace names.restricted_role) ≡ ok role)
      × (kube.answer (reading_role h) local
            (get_role_binding names.argocd_namespace names.restricted_binding)
          ≡ ok binding)
      × (kube.answer (reading_binding (reading_role h)) local
            (get_role names.argocd_namespace names.baseline_role)
          ≡ ok baseline)
      × (after ≡ reading_baseline (reading_binding (reading_role h)))

  -- What was read back is what was meant.
  abbrev pub AsMeant : Role → Role → RoleBinding → Role → Type 0
  AsMeant desired role binding baseline =
      (owned role.labels ≡ true)
      × (role.rules ≡ desired.rules)
      × (owned binding.labels ≡ true)
      × (binding_matches binding names.restricted_role names ≡ true)
      × (baseline.rules ≡ baseline_rules false)

  verify_objects-Returns :
      (desired : Role) (h after : History)
      → Returns (verify_objects kube names desired) h tt after
      → (role : Role) × (binding : RoleBinding) × (baseline : Role) × ReadBack role binding baseline
          h after
        × AsMeant desired role binding baseline
  unfolding verify_objects
  verify_objects-Returns desired h after e =
      let (role, h1, read, e1) = >>=-Returns _ _ h tt after e in
      let (said, at1) = send-Returns kube local _ h role h1 (on_error-Returns _ _ h role h1 read) in
      let (_, h2, checked, e2) = >>=-Returns _ _ h1 tt after e1 in
      let (fine, at2) = from_result-Returns checked in
      let (binding, h3, read_binding, e3) = >>=-Returns _ _ h2 tt after e2 in
      let (said_binding, at3) =
        send-Returns kube local _ h2 binding h3 (on_error-Returns _ _ h2 binding h3 read_binding) in
      let (_, h4, checked_binding, e4) = >>=-Returns _ _ h3 tt after e3 in
      let (fine_binding, at4) = from_result-Returns checked_binding in
      let (baseline, h5, read_baseline, e5) = >>=-Returns _ _ h4 tt after e4 in
      let (said_baseline, at5) =
        send-Returns kube local _ h4 baseline h5
          (on_error-Returns _ _ h4 baseline h5 read_baseline) in
      let (fine_baseline, at6) = from_result-Returns e5 in
      let good = require-ok _ _ fine in
      let good_binding = require-ok _ _ fine_binding in
      let second : h2 ≡ reading_role h = sym at2 ∙ at1 in
      let fourth : h4 ≡ reading_binding (reading_role h) =
        sym at4 ∙ at3 ∙ ap reading_binding second in
      (
        role,
        binding,
        baseline,
        (
          said,
          subst
              (λ x.
                kube.answer x local
                  (get_role_binding names.argocd_namespace names.restricted_binding)
                ≡ ok binding)
              second said_binding,
          subst
              (λ x.
                kube.answer x local (get_role names.argocd_namespace names.baseline_role)
                ≡ ok baseline)
              fourth said_baseline,
          sym at6 ∙ at5 ∙ ap reading_baseline fourth,
        ),
        (
          ground arith,
          same_rules-≡ role.rules desired.rules (ground arith),
          ground arith,
          ground arith,
          same_rules-≡ baseline.rules (baseline_rules false) (require-ok _ _ fine_baseline),
        ),
      )

  module _ (allows : Authorizer) (additive : IsAdditive allows) where
    -- At the end of the trace, the restricted Role and RoleBinding were read back as the tool's own,
    -- the binding of that Role to the controller's account, and with the baseline Role they allow
    -- create on every Secret, patch on exactly the listed names, and nothing else.
    abbrev pub Installed : List String → History → Type 0
    Installed secret_names after =
        (role : Role) × (binding : RoleBinding) × (baseline : Role) × (before : History) × ReadBack
          role binding baseline before after
        × (owned role.labels ≡ true)
        × (owned binding.labels ≡ true)
        × (binding_matches binding names.restricted_role names ≡ true)
        × ((verb name : String)
            → allows (baseline.rules ++ role.rules) verb name
              ≡ (verb == "create" || (verb == "patch" && contains secret_names name)))

    -- A restriction that succeeds has, as its last three calls, read back a restricted Role and
    -- RoleBinding that it owns, the binding of that Role to the controller's account, and a
    -- baseline Role, of which the rules together allow create on every Secret, patch on exactly
    -- the listed names, and nothing else, with an additive authorizer.
    pub apply-Installed :
        (secret_names : List String) (h after : History)
        → Returns (apply kube names secret_names) h tt after
        → Installed secret_names after
    unfolding apply
    apply-Installed secret_names h after e =
        let (_, h1, _, e1) = >>=-Returns _ _ h tt after e in
        let (_, h2, _, e2) = >>=-Returns _ _ h1 tt after e1 in
        let (_, h3, _, e3) = >>=-Returns _ _ h2 tt after e2 in
        let (_, h4, _, e4) = >>=-Returns _ _ h3 tt after e3 in
        let (role, binding, baseline, read, (own, rules, own_binding, matches, narrow)) =
          verify_objects-Returns (restricted_role names secret_names) h4 after e4 in
        (
          role,
          binding,
          baseline,
          h4,
          read,
          own,
          own_binding,
          matches,
          λ verb name.
              rw (narrow, rules)
                (restricted_role-allows allows additive names secret_names verb name),
        )
