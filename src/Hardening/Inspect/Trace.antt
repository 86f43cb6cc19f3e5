-- ===== src/Hardening/Inspect/Trace.antt =====
-- Inspection only reads.
use k2a_token_sync.Base.{◌≡◌, Bool, true, false, ◌∷◌}
use k2a_token_sync.Action.{Stays, stays_rules}
use k2a_token_sync.Kube.{
  Kube, History, Request, local, request, send, get_service_account, get_role, get_role_binding,
}
use k2a_token_sync.Hardening.{Names}
use k2a_token_sync.Hardening.Inspect.{
  inspect_account, inspect_baseline, inspect_baseline_binding, inspect_restricted, inspect,
}

-- The reads of a restriction.
abbrev pub is_read : Request → Bool
is_read (get_service_account _ _) = true
is_read (get_role _ _) = true
is_read (get_role_binding _ _) = true
is_read _ = false

-- What holds of a trace holds of it with one more read.
abbrev pub Reads : (History → Type 0) → Type 0
Reads I = (r : Request) (h : History) → is_read r ≡ true → I h → I (request local r ∷ h)

module _ (kube : Kube) (names : Names) {I : History → Type 0} (reads : Reads I) where
  pub read-Stays : (r : Request) → is_read r ≡ true → Stays I (send kube local r)
  unfolding send
  read-Stays r e = record { stays = λ h i. reads r h e i }

  pub inspect_account-Stays : Stays I (inspect_account kube names)
  unfolding inspect_account
  inspect_account-Stays = search (stays_rules, read-Stays)

  inspect_baseline-Stays : Stays I (inspect_baseline kube names)
  unfolding inspect_baseline
  inspect_baseline-Stays = search (stays_rules, read-Stays)

  pub inspect_baseline_binding-Stays : Stays I (inspect_baseline_binding kube names)
  unfolding inspect_baseline_binding
  inspect_baseline_binding-Stays = search (stays_rules, read-Stays)

  pub inspect_restricted-Stays : Stays I (inspect_restricted kube names)
  unfolding inspect_restricted
  inspect_restricted-Stays = search (stays_rules, read-Stays)

  pub inspect-Stays : Stays I (inspect kube names)
  unfolding inspect
  inspect-Stays = search (
    stays_rules, inspect_account-Stays, inspect_baseline-Stays, inspect_baseline_binding-Stays,
    inspect_restricted-Stays,
  )
