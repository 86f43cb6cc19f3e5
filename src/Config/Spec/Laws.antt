-- ===== src/Config/Spec/Laws.antt =====
-- What a cluster that FromSpec resolved can be relied on for.
use Prim.Native.String.{len}
use text.Mathlib.TextEquality.{eq_iff}
use text.Mathlib.TextLemmas.{append-eq-nil_iff}
use k2a_token_sync.Base.{
  ◌≤◌, String, ◌<>◌, ◌≡◌, ◌≢◌, ◌⊎◌, refl, sym, ap, subst, Bool, false, ◌&&◌, inl, inr, Option, none,
  some, List, [], ◌∷◌, ◌==◌, ltb, is_empty, is_some, arith,
}
use k2a_token_sync.Base.Int.{pos, ◌≤ℤ◌, ◌<ℤ◌}
use k2a_token_sync.Time.{Duration}
use k2a_token_sync.Errors.{Result, ok, err, and_then-ok, guard-ok}
use k2a_token_sync.Api.{ServiceAccountRef, ClusterConnectionSpec}
use k2a_token_sync.Config.{Cluster}
use k2a_token_sync.Config.Spec.{
  parse_duration, normalise_endpoint, from_spec, resolved, or_default, account_of,
  default_token_ttl, default_self_token_ttl, default_expiry_warn_threshold, min_token_ttl,
}
use k2a_token_sync.Format.{Printer, Parser}

-- The value of a success.
abbrev ok_or : Cluster → Result Cluster → Cluster
ok_or c (ok d) = d
ok_or c (err _) = c

-- The values that a pass and a bootstrap rely on.
abbrev pub IsResolved : Cluster → Type 0
IsResolved c =
    (c.name ≢ "")
    × (len c.name ≤ 63)
    × (c.display_name ≢ "")
    × (c.secret_name ≢ "")
    × (c.self_service_account_name ≢ "")
    × (c.service_account.name ≢ "")
    × (c.service_account.namespace ≢ "")
    × (c.cluster_role ≢ "")
    × (min_token_ttl ≤ℤ c.token_ttl)
    × (min_token_ttl ≤ℤ c.self_token_ttl)
    × (pos 0 <ℤ c.expiry_warn_threshold)
    × ((c.cluster_resources ≡ none) ⊎ (c.namespaces ≢ []))

module _ (p : Printer) (r : Parser) where
  parse_duration-bounds :
      (field raw : String) (default lower_bound d : Duration)
      → pos 0 <ℤ default
      → lower_bound ≤ℤ default
      → parse_duration p r field raw default lower_bound ≡ ok d
      → (pos 0 <ℤ d) × (lower_bound ≤ℤ d)
  unfolding parse_duration
  parse_duration-bounds field raw default lower_bound d positive enough e = ground arith

  -- What FromSpec went through where it succeeded.
  pub from_spec-steps :
      (name : String) (spec : ClusterConnectionSpec) (c : Cluster)
      → from_spec p r name spec ≡ ok c
      → (endpoint : String) × (token_ttl self_token_ttl threshold : Duration) × (name == "" ≡ false)
        × (ltb 63 (len name) ≡ false)
        × (normalise_endpoint p r spec.endpoint ≡ ok endpoint)
        × ((is_some spec.cluster_resources && is_empty spec.namespaces) ≡ false)
        × (parse_duration p r "tokenTTL" spec.token_ttl default_token_ttl min_token_ttl
            ≡ ok token_ttl)
        × (parse_duration p r "selfTokenTTL" spec.self_token_ttl default_self_token_ttl
              min_token_ttl
            ≡ ok self_token_ttl)
        × (parse_duration p r "expiryWarnThreshold" spec.expiry_warn_threshold
              default_expiry_warn_threshold
              (pos 0)
            ≡ ok threshold)
        × (c ≡ resolved name spec endpoint token_ttl self_token_ttl threshold)
  unfolding from_spec
  from_spec-steps name spec c e =
      let (named, e1) = guard-ok (name == "") _ _ e in
      let (short, e2) = guard-ok (ltb 63 (len name)) _ _ e1 in
      let (endpoint, reached, e3) = and_then-ok _ _ e2 in
      let (scoped, e4) =
        guard-ok (is_some spec.cluster_resources && is_empty spec.namespaces) _ _ e3 in
      let (token_ttl, parsed, e5) = and_then-ok _ _ e4 in
      let (self_token_ttl, self_parsed, e6) = and_then-ok _ _ e5 in
      let (threshold, warned, e7) = and_then-ok _ _ e6 in
      (
        endpoint,
        token_ttl,
        self_token_ttl,
        threshold,
        named,
        short,
        reached,
        scoped,
        parsed,
        self_parsed,
        warned,
        ap (λ x. ok_or c x) (sym e7),
      )

  or_default-set : (s t : String) → t ≢ "" → or_default s t ≢ ""
  or_default-set s t set = ground arith

  scope :
      (resources : Option Bool) (namespaces : List String)
      → (is_some resources && is_empty namespaces) ≡ false
      → (resources ≡ none) ⊎ (namespaces ≢ [])
  scope none namespaces e = inl refl
  scope (some b) [] e = absurd (ground arith)
  scope (some b) (n ∷ ns) e = inr (ground arith)

  account_of-set :
      (account : Option ServiceAccountRef)
      → ((account_of account).name ≢ "") × ((account_of account).namespace ≢ "")
  account_of-set none =
      (ground (arith, eq_iff "argocd-manager" ""), ground (arith, eq_iff "kube-system" ""))
  account_of-set (some a) = (
    or_default-set a.name "argocd-manager" (ground (arith, eq_iff "argocd-manager" "")),
    or_default-set a.namespace "kube-system" (ground (arith, eq_iff "kube-system" "")),
  )

  -- A cluster that FromSpec resolved has every name that is derived from it, a name of at most 63
  -- characters, tokens asked for at least an hour, a positive threshold, and no scope of cluster
  -- resources without namespaces.
  pub from_spec-IsResolved :
      (name : String) (spec : ClusterConnectionSpec) (c : Cluster)
      → from_spec p r name spec ≡ ok c
      → IsResolved c
  unfolding resolved
  from_spec-IsResolved name spec c e =
      let (
        endpoint, token_ttl, self_token_ttl, threshold, named, short, reached, scoped, parsed,
        self_parsed, warned, is,
      ) =
        from_spec-steps name spec c e in
      let name_set : name ≢ "" = ground arith in
      subst IsResolved (sym is) (
        name_set,
        ground arith,
        or_default-set spec.display_name name name_set,
        or_default-set spec.secret_name ("cluster-" <> name)
            (λ h. ground (arith, eq_iff "cluster-" "", (append-eq-nil_iff.0 h).0)),
        or_default-set spec.self_service_account_name "k2a-token-sync"
            (ground (arith, eq_iff "k2a-token-sync" "")),
        (account_of-set spec.service_account).0,
        (account_of-set spec.service_account).1,
        or_default-set spec.cluster_role "cluster-admin"
            (ground (arith, eq_iff "cluster-admin" "")),
        (parse_duration-bounds "tokenTTL" spec.token_ttl default_token_ttl min_token_ttl token_ttl
            (omega arith) (omega arith) parsed).1,
        (parse_duration-bounds "selfTokenTTL" spec.self_token_ttl default_self_token_ttl
            min_token_ttl self_token_ttl (omega arith) (omega arith) self_parsed).1,
        (parse_duration-bounds "expiryWarnThreshold" spec.expiry_warn_threshold
            default_expiry_warn_threshold (pos 0) threshold (omega arith) (omega arith) warned).0,
        scope spec.cluster_resources spec.namespaces scoped,
      )
